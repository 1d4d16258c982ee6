-- ===== src/Correlation/Bounds.antt =====
-- Every identifier that the service gives a request is a correlation id that its columns can hold.
use mathlib.Core.Path.{◌≡◌, refl}
use verigence_security.Common.{
  ℕ, zero, suc, ◌/◌, ◌%◌, ◌<◌, ◌≤◌, Bool, true, false, ◌&&◌, [], ◌∷◌, ◌++◌, Option, none, some,
  Text, leb, every, length, arith, and_true, and_true_both, leb→le, is_empty,
}
use Prim.Native.Nat.{◌^◌}
use verigence_security.Core.Types.{Uuid}
use verigence_security.Platform.Uuids.{hex_digit, hex_run, uuid_text}
use verigence_security.Correlation.{
  is_alphanumeric, is_id_char, matches_pattern, Dispatched, header_of, dispatch,
  current_correlation_id,
}

hex_digit_alphanumeric : (n : ℕ) → n < 16 → is_alphanumeric (hex_digit n) ≡ true
hex_digit_alphanumeric n h = ground arith

every-hex_run : (k n : ℕ) → every is_alphanumeric (hex_run k n) ≡ true
unfolding hex_run
every-hex_run zero n = refl
every-hex_run (suc k) n =
    and_true_both _ _ (hex_digit_alphanumeric (n / 16 ^ k % 16) (below (n / 16 ^ k)))
      (every-hex_run k n)
  where
    below : (m : ℕ) → m % 16 < 16
    below m = omega arith

id_chars : (s : Text) → every is_alphanumeric s ≡ true → every is_id_char s ≡ true
id_chars [] h = refl
id_chars (c ∷ s) h =
    let (h0, h1) = and_true (is_alphanumeric c) (every is_alphanumeric s) h in
    and_true_both (is_id_char c) (every is_id_char s) (rw h0 refl) (id_chars s h1)

every-append :
    (p : ℕ → Bool) (s t : Text) → every p s ≡ true → every p t ≡ true → every p (s ++ t) ≡ true
every-append p [] t h k = k
every-append p (c ∷ s) t h k =
    let (h0, h1) = and_true (p c) (every p s) h in
    and_true_both (p c) (every p (s ++ t)) h0 (every-append p s t h1 k)

-- A group of digits and what follows it behind a dash.
group :
    (k n : ℕ) (rest : Text)
    → every is_id_char rest ≡ true
    → every is_id_char (hex_run k n ++ rest) ≡ true
group k n rest h =
    every-append is_id_char (hex_run k n) rest (id_chars (hex_run k n) (every-hex_run k n)) h

-- The text of a UUID is a correlation id.
uuid_text_matches : (n : Uuid) → matches_pattern (uuid_text n) ≡ true
unfolding uuid_text hex_run
uuid_text_matches n =
    let g5 = hex_run 12 n in
    let g4 = hex_run 4 (n / 16 ^ 12) ++ (b'-' ∷ g5) in
    let g3 = hex_run 4 (n / 16 ^ 16) ++ (b'-' ∷ g4) in
    let g2 = hex_run 4 (n / 16 ^ 20) ++ (b'-' ∷ g3) in
    let good5 = id_chars g5 (every-hex_run 12 n) in
    let good4 = group 4 (n / 16 ^ 12) (b'-' ∷ g5) good5 in
    let good3 = group 4 (n / 16 ^ 16) (b'-' ∷ g4) good4 in
    let good2 = group 4 (n / 16 ^ 20) (b'-' ∷ g3) good3 in
    let rest = hex_run 7 (n / 16 ^ 24) ++ (b'-' ∷ g2) in
    and_true_both (is_alphanumeric (hex_digit (n / 16 ^ 24 / 16 ^ 7 % 16)))
      (every is_id_char rest && true)
      (hex_digit_alphanumeric (n / 16 ^ 24 / 16 ^ 7 % 16) (below (n / 16 ^ 24 / 16 ^ 7)))
      (and_true_both (every is_id_char rest) true (group 7 (n / 16 ^ 24) (b'-' ∷ g2) good2) refl)
  where
    below : (m : ℕ) → m % 16 < 16
    below m = omega arith

-- What the pattern says of a text: it is not empty, has at most 128 characters, and all are of its class.
pub record IsCorrelationId (t : Text) : Type 0 where
  pub not_empty : is_empty t ≡ false
  pub fits_column : length t ≤ 128
  pub all_chars : every is_id_char t ≡ true

matches_pattern-IsCorrelationId : (t : Text) → matches_pattern t ≡ true → IsCorrelationId t
matches_pattern-IsCorrelationId [] h = cc
matches_pattern-IsCorrelationId (c ∷ cs) h =
    let (h0, h1) = and_true (is_alphanumeric c) (every is_id_char cs && leb (length cs) 127) h in
    let (h2, h3) = and_true (every is_id_char cs) (leb (length cs) 127) h1 in
    record {
      not_empty = refl;
      fits_column = step (length cs) (leb→le (length cs) 127 h3);
      all_chars = and_true_both (is_id_char c) (every is_id_char cs) (rw h0 refl) h2;
    }
  where
    step : (n : ℕ) → n ≤ 127 → suc n ≤ 128
    step n h = omega arith

-- Whatever header a request carries, the identifier that its answer gets is not empty, has at most 128
-- characters, as many as the `correlation_id` columns hold, and only those of the pattern. The generated
-- identifier is the text of any UUID.
pub dispatch-IsCorrelationId :
    (n : Uuid) (supplied : Option Text)
    → IsCorrelationId (header_of (dispatch (uuid_text n) supplied))
unfolding dispatch current_correlation_id
dispatch-IsCorrelationId n none =
    matches_pattern-IsCorrelationId (uuid_text n) (uuid_text_matches n)
dispatch-IsCorrelationId n (some t) = chosen (matches_pattern t) refl
  where
    kept :
        (b : Bool)
        → is_empty t ≡ b
        → IsCorrelationId t
        → IsCorrelationId (elim b [ true ↦ uuid_text n | false ↦ t ])
    kept true e k = matches_pattern-IsCorrelationId (uuid_text n) (uuid_text_matches n)
    kept false e k = k

    chosen :
        (b : Bool)
        → matches_pattern t ≡ b
        → IsCorrelationId (
            header_of (elim b [
              | true ↦ Dispatched.continued (elim (is_empty t) [ true ↦ uuid_text n | false ↦ t ])
              | false ↦ Dispatched.refused (uuid_text n)
            ]))
    chosen true e = kept (is_empty t) refl (matches_pattern-IsCorrelationId t e)
    chosen false e = matches_pattern-IsCorrelationId (uuid_text n) (uuid_text_matches n)
