-- ===== src/Permissions/Canonical/Grammar.antt =====
-- That the matcher accepts exactly the texts which the pattern describes.
use verigence_security.Common.{
  ℕ, suc, ◌+◌, ◌≤◌, ◌≡◌, refl, ap, ◌↔◌, Bool, true, false, not, ◌&&◌, List, [], ◌∷◌, ◌++◌, arith,
  Text, ◌==◌, every, is_empty, length, Bool-cases, inl, inr,
}
use verigence_security.Permissions.Canonical.{
  Place, start, first, dotted, inside, is_key_char, is_segment_char, matches_from, no_colon,
  is_canonical_permission, tails, is_word, IsCanonical,
}

-- What is left to read at a place: the rest of the word there, then the words behind the dots.
abbrev chars_at : Place → ℕ → Bool
chars_at start = is_key_char
chars_at first = is_key_char
chars_at (dotted n) = is_segment_char
chars_at (inside n) = is_segment_char

abbrev wants_word : Place → Bool
wants_word start = true
wants_word (dotted n) = true
wants_word _ = false

abbrev dots : Place → ℕ
dots (dotted n) = n
dots (inside n) = n
dots _ = 0

record Completion (p : Place) (s : Text) : Type 0 where
  word : Text
  rest : List Text
  is_chars : every (chars_at p) word ≡ true
  begun : (wants_word p && is_empty word) ≡ false
  is_rest : every (is_word is_segment_char) rest ≡ true
  enough : 2 ≤ dots p + length rest
  spelled : s ≡ word ++ tails rest

matches_from_sound : (p : Place) (s : Text) → matches_from p s ≡ true → Completion p s
unfolding matches_from
matches_from_sound start [] h = cc
matches_from_sound first [] h = cc
matches_from_sound (dotted n) [] h = cc
matches_from_sound (inside n) [] h = record {
  word = [];
  rest = [];
  is_chars = refl;
  begun = refl;
  is_rest = refl;
  enough = ground arith;
  spelled = refl;
}
matches_from_sound start (c ∷ s) h =
    let k = matches_from_sound first s (ground arith) in
    record {
      word = c ∷ k.word;
      rest = k.rest;
      is_chars = ground arith;
      begun = refl;
      is_rest = k.is_rest;
      enough = k.enough;
      spelled = ap (λ t. c ∷ t) k.spelled;
    }
matches_from_sound (dotted n) (c ∷ s) h =
    let k = matches_from_sound (inside n) s (ground arith) in
    record {
      word = c ∷ k.word;
      rest = k.rest;
      is_chars = ground arith;
      begun = refl;
      is_rest = k.is_rest;
      enough = k.enough;
      spelled = ap (λ t. c ∷ t) k.spelled;
    }
matches_from_sound first (c ∷ s) h = elim (Bool-cases (c == b'.')) [
  | inl dot ↦
      let k = matches_from_sound (dotted 1) s (rw dot at h) in
      record {
        word = [];
        rest = k.word ∷ k.rest;
        is_chars = refl;
        begun = refl;
        is_rest = ground arith;
        enough = ground arith;
        spelled = ground (arith, k.spelled);
      }
  | inr more ↦
      let k = matches_from_sound first s (ground arith) in
      record {
        word = c ∷ k.word;
        rest = k.rest;
        is_chars = ground arith;
        begun = refl;
        is_rest = k.is_rest;
        enough = k.enough;
        spelled = ap (λ t. c ∷ t) k.spelled;
      }
]
matches_from_sound (inside n) (c ∷ s) h = elim (Bool-cases (c == b'.')) [
  | inl dot ↦
      let k = matches_from_sound (dotted (suc n)) s (rw dot at h) in
      record {
        word = [];
        rest = k.word ∷ k.rest;
        is_chars = refl;
        begun = refl;
        is_rest = ground arith;
        enough = ground arith;
        spelled = ground (arith, k.spelled);
      }
  | inr more ↦
      let k = matches_from_sound (inside n) s (ground arith) in
      record {
        word = c ∷ k.word;
        rest = k.rest;
        is_chars = ground arith;
        begun = refl;
        is_rest = k.is_rest;
        enough = k.enough;
        spelled = ap (λ t. c ∷ t) k.spelled;
      }
]

key_char-ne-dot : (c : ℕ) → is_segment_char c ≡ true → (c == b'.') ≡ false
key_char-ne-dot c h = ground arith

matches_from_complete :
    (p : Place) (rest : List Text) (word : Text)
    → every (chars_at p) word ≡ true
    → (wants_word p && is_empty word) ≡ false
    → every (is_word is_segment_char) rest ≡ true
    → 2 ≤ dots p + length rest
    → matches_from p (word ++ tails rest) ≡ true
unfolding matches_from
matches_from_complete start [] [] hc hb hr he = cc
matches_from_complete first [] [] hc hb hr he = absurd (omega arith)
matches_from_complete (dotted n) [] [] hc hb hr he = cc
matches_from_complete (inside n) [] [] hc hb hr he = ground arith
matches_from_complete start (w ∷ ws) [] hc hb hr he = cc
matches_from_complete (dotted n) (w ∷ ws) [] hc hb hr he = cc
matches_from_complete first (w ∷ ws) [] hc hb hr he =
    matches_from_complete (dotted 1) ws w (ground arith) (ground arith) (ground arith) (omega arith)
matches_from_complete (inside n) (w ∷ ws) [] hc hb hr he =
    matches_from_complete (dotted (suc n)) ws w (ground arith) (ground arith) (ground arith)
      (omega arith)
matches_from_complete start ws (c ∷ w) hc hb hr he =
    ground (arith, matches_from_complete first ws w (ground arith) refl hr he)
matches_from_complete first ws (c ∷ w) hc hb hr he =
    ground (arith, key_char-ne-dot c, matches_from_complete first ws w (ground arith) refl hr he)
matches_from_complete (dotted n) ws (c ∷ w) hc hb hr he =
    ground (arith, matches_from_complete (inside n) ws w (ground arith) refl hr he)
matches_from_complete (inside n) ws (c ∷ w) hc hb hr he =
    ground
      (arith, key_char-ne-dot c, matches_from_complete (inside n) ws w (ground arith) refl hr he)

module _ (p q : ℕ → Bool) where
  every_mono :
      ((c : ℕ) → p c ≡ true → q c ≡ true) → (s : Text) → every p s ≡ true → every q s ≡ true
  every_mono f [] h = refl
  every_mono f (c ∷ s) h = ground (arith, f c, every_mono f s)

every-append :
    (p : ℕ → Bool) (s t : Text) → every p s ≡ true → every p t ≡ true → every p (s ++ t) ≡ true
every-append p [] t h k = k
every-append p (c ∷ s) t h k = ground (arith, every-append p s t)

segment_char-ne-colon : (c : ℕ) → is_segment_char c ≡ true → not (c == b':') ≡ true
segment_char-ne-colon c h = ground arith

key_char-ne-colon : (c : ℕ) → is_key_char c ≡ true → not (c == b':') ≡ true
key_char-ne-colon c h = ground arith

no_colon-tails :
    (ws : List Text) → every (is_word is_segment_char) ws ≡ true → no_colon (tails ws) ≡ true
no_colon-tails [] h = refl
no_colon-tails (w ∷ ws) h =
    every-append (λ c. not (c == b':')) w (tails ws)
      (every_mono is_segment_char (λ c. not (c == b':')) segment_char-ne-colon w (ground arith))
      (no_colon-tails ws (ground arith))

no_colon_of_IsCanonical : (v : Text) → IsCanonical v → no_colon v ≡ true
no_colon_of_IsCanonical v k = rw k.spelled (
    every-append (λ c. not (c == b':')) k.head (tails k.rest)
      (every_mono is_key_char (λ c. not (c == b':')) key_char-ne-colon k.head (ground arith))
      (no_colon-tails k.rest k.is_rest))

Completion-IsCanonical : (v : Text) → Completion start v → IsCanonical v
Completion-IsCanonical v k = record {
  head = k.word;
  rest = k.rest;
  is_head = ground arith;
  is_rest = k.is_rest;
  enough = omega (arith, k.enough);
  spelled = k.spelled;
}

matches_of_IsCanonical : (v : Text) → IsCanonical v → matches_from start v ≡ true
matches_of_IsCanonical v k = rw k.spelled (
    matches_from_complete start k.rest k.head (ground arith) (ground arith) k.is_rest
      (omega (arith, k.enough)))

-- `is_canonical_permission` accepts a text exactly when it is a word of lower-case letters and
-- digits followed by two words or more, each behind a dot and each of letters, digits, `_` and `-`.
pub is_canonical_permission_iff : (v : Text) → (is_canonical_permission v ≡ true) ↔ IsCanonical v
unfolding is_canonical_permission
is_canonical_permission_iff v = (
  λ h. Completion-IsCanonical v (matches_from_sound start v (ground arith)),
  λ k. ground (arith, no_colon_of_IsCanonical v k, matches_of_IsCanonical v k),
)
