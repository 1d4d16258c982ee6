-- ===== src/Correlation.antt =====
-- core/correlation.py: the identifier that ties a request to its records. `ContextVar` and the calls of
-- the web framework are left out: what `dispatch` decides is here the answer of a function.
pub mod Bounds
use verigence_security.Common.{
  ℕ, Bool, true, false, ◌&&◌, ◌||◌, not, [], ◌∷◌, Option, none, some, Text, leb, ltb, ◌==◌, every,
  length, is_empty,
}
use verigence_security.Core.Errors.{correlation_id_invalid}
use verigence_security.Core.Result.{Result, ok, deny}

-- `[A-Za-z0-9]`
abbrev pub is_alphanumeric : ℕ → Bool
is_alphanumeric c =
    (leb b'0' c && leb c b'9') || ((leb b'A' c && leb c b'Z') || (leb b'a' c && leb c b'z'))

-- `[A-Za-z0-9._:-]`
abbrev pub is_id_char : ℕ → Bool
is_id_char c = is_alphanumeric c || (c == b'.' || (c == b'_' || (c == b':' || c == b'-')))

-- `_PATTERN.fullmatch(value)`
abbrev pub matches_pattern : Text → Bool
matches_pattern [] = false
matches_pattern (c ∷ cs) = is_alphanumeric c && (every is_id_char cs && leb (length cs) 127)

-- `fresh` is `str(uuid4())`.
unfoldable pub resolve_correlation_id : Text → Option Text → Result Text
resolve_correlation_id fresh none = ok fresh
resolve_correlation_id fresh (some value) = elim (matches_pattern value) [
  | true ↦ ok value
  | false ↦ deny correlation_id_invalid
]

-- `current_correlation_id`, over what the context holds.
unfoldable pub current_correlation_id : Text → Option Text → Text
current_correlation_id fresh none = fresh
current_correlation_id fresh (some value) = elim (is_empty value) [ true ↦ fresh | false ↦ value ]

-- What `dispatch` does with a request: it is refused with status 400, or goes on. Either way the answer
-- carries the identifier.
pub data Dispatched : Type 0 where
  refused continued : Text → Dispatched

abbrev pub header_of : Dispatched → Text
header_of (Dispatched.refused cid) = cid
header_of (Dispatched.continued cid) = cid

unfoldable pub dispatch : Text → Option Text → Dispatched
unfolding current_correlation_id
dispatch fresh none = Dispatched.continued (current_correlation_id fresh none)
dispatch fresh (some supplied) = elim (matches_pattern supplied) [
  | true ↦ Dispatched.continued (current_correlation_id fresh (some supplied))
  | false ↦ Dispatched.refused fresh
]
