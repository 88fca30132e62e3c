-- ===== src/Utils.antt =====
-- src/utils.cpp and src/utils.hpp.
pub mod Calendar
pub mod Strings
pub mod Numbers
pub mod Days
pub mod DateTexts
