-- ===== src/Types.antt =====
-- src/types.cpp and src/types.hpp: the request parameters and the codes that they are kept as.
pub mod Params
pub mod Iata
pub mod Country
pub mod Date
pub mod Scalars
pub mod Weekdays
