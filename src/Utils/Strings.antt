-- ===== src/Utils/Strings.antt =====
-- The string helpers of src/utils.cpp, over lists of bytes.
pub mod Find
pub mod Split
use deals_server.Prelude.{
  ℕ, zero, suc, ◌+◌, ◌-◌, Bool, false, true, ◌&&◌, List, [], ◌∷◌, ◌++◌, map, Option, none, some,
  leb, ◌==◌, if◌then◌else◌, length, take, drop, Text,
}
use mathlib.Core.Option

unfoldable pub starts_with : Text → Text → Bool
starts_with [] s = true
starts_with (c ∷ p) [] = false
starts_with (c ∷ p) (b ∷ s) = c == b && starts_with p s

-- std::string::find from the start; `none` is npos.
unfoldable pub find : Text → Text → Option ℕ
unfolding starts_with
find p [] = if starts_with p [] then some 0 else none
find p (c ∷ s) = if starts_with p (c ∷ s) then some 0 else Option.map suc (find p s)

-- std::string::substr(pos, count) and substr(pos), for pos within the text.
abbrev pub substr : Text → ℕ → ℕ → Text
substr s pos count = take count (drop pos s)

abbrev pub substr_from : Text → ℕ → Text
substr_from s pos = drop pos s

-- The while loop of `split_string`, with the rounds that are left; `none` is the loop still running.
unfoldable pub split_loop : ℕ → Text → Text → Option (List Text)
split_loop fuel d [] = some []
split_loop zero d (c ∷ s) = none
split_loop (suc fuel) d (c ∷ s) = elim (find d (c ∷ s)) [
  | none ↦ some ((c ∷ s) ∷ [])
  | some pos ↦
      Option.map (λ tokens. take pos (c ∷ s) ∷ tokens)
        (split_loop fuel d (drop (pos + length d) (c ∷ s)))
]

-- With an empty delimiter, which nothing passes, the program's loop would not end.
unfoldable pub split_string : Text → Text → List Text
unfolding split_loop find
split_string text d = elim (split_loop (length text) d text) [ none ↦ [] | some tokens ↦ tokens ]

unfoldable pub concat_string : List Text → Text
concat_string [] = []
concat_string (m ∷ ms) = m ++ concat_string ms

-- ::tolower and ::toupper of the C locale.
abbrev pub tolower : ℕ → ℕ
tolower c = if leb b'A' c && leb c b'Z' then c + 32 else c

abbrev pub toupper : ℕ → ℕ
toupper c = if leb b'a' c && leb c b'z' then c - 32 else c

unfoldable pub to_lower_case : Text → Text
to_lower_case text = map tolower text

unfoldable pub to_upper_case : Text → Text
to_upper_case text = map toupper text
