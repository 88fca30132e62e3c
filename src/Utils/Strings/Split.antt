-- ===== src/Utils/Strings/Split.antt =====
-- `split_string` ends, and its tokens are the text cut at every delimiter.

use mathlib.Core.List.{append-nil, append_assoc}
use deals_server.Prelude.{
  ℕ, zero, suc, ◌+◌, ◌≤◌, ◌≡◌, ◌≢◌, refl, ap, sym, ◌∙◌, ◌⊎◌, List, [], ◌∷◌, ◌++◌, none, some, arith,
  inl, inr, Option-cases, length, take, drop, length-drop, Text, All,
}
use deals_server.Utils.Strings.{find, split_loop, split_string}
use deals_server.Utils.Strings.Find.{find-eq, find-take}

-- Each token with the delimiter behind it.
abbrev pub terminated : Text → List Text → Text
terminated d [] = []
terminated d (t ∷ ts) = t ++ (d ++ terminated d ts)

-- No token contains the delimiter, and the tokens make up the text, to which the delimiter may have
-- to be added at the end.
pub record IsSplit (d s : Text) (tokens : List Text) : Type 0 where
  pub free : All (λ t. find d t ≡ none) tokens
  pub whole : (s ≡ terminated d tokens) ⊎ (s ++ d ≡ terminated d tokens)

module _ (b : ℕ) (p : Text) where
  abbrev delim : Text
  delim = b ∷ p

  cut-IsSplit :
      (s : Text) (n : ℕ) (tokens : List Text)
      → find delim s ≡ some n
      → IsSplit delim (drop (n + length delim) s) tokens
      → IsSplit delim s (take n s ∷ tokens)
  cut-IsSplit s n tokens e v = record {
    free = (find-take b p s n e, v.free);
    whole = elim v.whole [
      | inl w ↦ inl (find-eq delim s n e ∙ ap (λ r. take n s ++ (delim ++ r)) w)
      | inr w ↦ inr (
          ap (λ t. t ++ delim) (find-eq delim s n e)
          ∙ append_assoc (take n s) _ delim
          ∙ ap (λ r. take n s ++ r) (append_assoc delim _ delim)
          ∙ ap (λ r. take n s ++ (delim ++ r)) w)
    ];
  }

  split_loop-IsSplit :
      (fuel : ℕ) (s : Text)
      → length s ≤ fuel
      → (tokens : List Text) × (split_loop fuel delim s ≡ some tokens) × IsSplit delim s tokens
  unfolding split_loop
  split_loop-IsSplit fuel [] h = ([], refl, record { free = tt; whole = inl refl })
  split_loop-IsSplit zero (c ∷ s) h = absurd (omega arith)
  split_loop-IsSplit (suc fuel) (c ∷ s) h = elim (Option-cases (find delim (c ∷ s))) [
    | inl e ↦ (
      (c ∷ s) ∷ [],
      rw (e, split_loop),
      record { free = (e, tt); whole = inr (ap (λ r. (c ∷ s) ++ r) (sym (append-nil delim))) },
    )
    | inr (n, e) ↦
        let (tokens, run, v) =
          split_loop-IsSplit fuel (drop (n + length delim) (c ∷ s))
            (omega (arith, length-drop (n + length delim) (c ∷ s))) in
        (take n (c ∷ s) ∷ tokens, rw (e, split_loop, run), cut-IsSplit (c ∷ s) n tokens e v)
  ]

  -- With a delimiter of one byte or more the loop ends, within one round for each byte of the text;
  -- no token contains the delimiter, and the text, with the delimiter added at its end where it
  -- does not stand there, is the tokens in order with the delimiter behind each.
  pub split_string-IsSplit :
      (s : Text)
      → (split_loop (length s) delim s ≡ some (split_string s delim))
        × IsSplit delim s (split_string s delim)
  unfolding split_string
  split_string-IsSplit s =
      let (tokens, run, v) = split_loop-IsSplit (length s) s (omega arith) in
      rw (run, split_string) (refl, v)

  -- A text that is not empty has a token.
  pub split_string-ne-nil : (s : Text) → s ≢ [] → split_string s delim ≢ []
  split_string-ne-nil [] h e = h refl
  split_string-ne-nil (c ∷ s) h e = elim (rw e at (split_string-IsSplit (c ∷ s)).1.whole) [
    | inl whole ↦ absurd (cc whole)
    | inr whole ↦ absurd (cc whole)
  ]
