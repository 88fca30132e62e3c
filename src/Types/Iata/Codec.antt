-- ===== src/Types/Iata/Codec.antt =====
-- The place codec loses nothing.
use deals_server.Prelude.{ℕ, ◌<◌, ◌≡◌, [], ◌∷◌, arith}
use deals_server.Types.Iata.{origin_to_code, code_to_origin}

-- Three bytes come back from their code.
pub code_to_origin-origin_to_code :
    (a b c : ℕ)
    → a < 256
    → b < 256
    → c < 256
    → code_to_origin (origin_to_code (a ∷ b ∷ c ∷ [])) ≡ a ∷ b ∷ c ∷ []
unfolding code_to_origin origin_to_code
code_to_origin-origin_to_code a b c ha hb hc = ground arith
