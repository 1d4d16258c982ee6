-- ===== src/Permissions/Canonical.antt =====
-- `is_canonical_permission`: the pattern `^[a-z0-9]+(\.[a-z0-9_-]+){2,}$` and the ban on `:`.
pub mod Grammar
use verigence_security.Common.{
  ℕ, suc, ◌+◌, ◌≤◌, ◌≡◌, refl, ap, ◌↔◌, Bool, true, false, not, ◌&&◌, ◌||◌, List, [], ◌∷◌, ◌++◌,
  arith, Text, leb, ◌==◌, if◌then◌else◌, every, is_empty, length, Bool-cases,
}

-- `[a-z0-9]`
abbrev pub is_key_char : ℕ → Bool
is_key_char c = (leb b'a' c && leb c b'z') || (leb b'0' c && leb c b'9')

-- `[a-z0-9_-]`
abbrev pub is_segment_char : ℕ → Bool
is_segment_char c = is_key_char c || c == b'_' || c == b'-'

-- How far the match has come: nothing read, inside the first word, behind a dot or inside a word
-- after `n` dots.
pub data Place : Type 0 where
  start first : Place
  dotted inside : ℕ → Place

abbrev pub is_accepting : Place → Bool
is_accepting (inside n) = leb 2 n
is_accepting _ = false

-- `fullmatch`, read from left to right: the words of the pattern hold no dot, so the match has no
-- choice to go back on.
matches_from : Place → Text → Bool
matches_from p [] = is_accepting p
matches_from start (c ∷ s) = is_key_char c && matches_from first s
matches_from first (c ∷ s) =
    let dot = matches_from (dotted 1) s in
    let word = matches_from first s in if c == b'.' then dot else is_key_char c && word
matches_from (dotted n) (c ∷ s) = is_segment_char c && matches_from (inside n) s
matches_from (inside n) (c ∷ s) =
    let dot = matches_from (dotted (suc n)) s in
    let word = matches_from (inside n) s in if c == b'.' then dot else is_segment_char c && word

-- `":" not in value`
abbrev pub no_colon : Text → Bool
no_colon s = every (λ c. not (c == b':')) s

unfoldable pub is_canonical_permission : Text → Bool
unfolding matches_from
is_canonical_permission value = matches_from start value && no_colon value

-- The words behind the dots, each with its dot.
abbrev pub tails : List Text → Text
tails [] = []
tails (w ∷ ws) = b'.' ∷ (w ++ tails ws)

abbrev pub is_word : (ℕ → Bool) → Text → Bool
is_word p w = not (is_empty w) && every p w

-- What the pattern says: a word of lower-case letters and digits, then two words or more, which may
-- also hold `_` and `-`, each behind a dot.
pub record IsCanonical (value : Text) : Type 0 where
  pub head : Text
  pub rest : List Text
  pub is_head : is_word is_key_char head ≡ true
  pub is_rest : every (is_word is_segment_char) rest ≡ true
  pub enough : 2 ≤ length rest
  pub spelled : value ≡ head ++ tails rest
