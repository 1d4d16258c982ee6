-- ===== src/Access/Machine/Credential.antt =====
-- What MachineAccessService checks of a client and of the permissions that it asks for.
use verigence_security.Common.{
  ℕ, ◌+◌, Bool, true, false, ◌&&◌, ◌||◌, not, List, [], ◌∷◌, ◌++◌, map, Text, text_eq, is_empty,
  leb, ◌==◌, select, every, length, if◌then◌else◌,
}
use verigence_security.Core.Types.{Uuid, Instant}
use verigence_security.Core.Errors.{permission_denied, machine_credential_invalid}
use verigence_security.Core.Result.{Result, ok, deny_if, ◌>>=◌, ◌>>◌}
use verigence_security.Db.Schema.{Db}
use verigence_security.Permissions.Ordered.{is_subset}
use verigence_security.Permissions.Validate.{validate_permissions}
use verigence_security.Repository.Machine.{
  MachineCredential, machine_credential, machine_permissions,
}

-- `str.isspace` of one code point.
abbrev pub is_space : ℕ → Bool
is_space c =
    (leb 9 c && leb c 13)
    || ((leb 28 c && leb c 32)
        || (c == 133
            || (c == 160
                || (c == 5760
                    || ((leb 8192 c && leb c 8202)
                        || (c == 8232
                            || (c == 8233 || (c == 8239 || (c == 8287 || c == 12288)))))))))

abbrev pub strip_left : Text → Text
strip_left [] = []
strip_left (c ∷ s) = let rest = strip_left s in if is_space c then rest else c ∷ s

abbrev pub reversed : Text → Text
reversed [] = []
reversed (c ∷ s) = reversed s ++ (c ∷ [])

-- `str.strip()`
abbrev pub strip : Text → Text
strip s = reversed (strip_left (reversed (strip_left s)))

-- `str.lower()` as far as the next test sees it: no other code point has a hexadecimal digit as its
-- lower case, and none that is none has a lower case of one.
abbrev pub lower_char : ℕ → ℕ
lower_char c = if leb b'A' c && leb c b'Z' then c + 32 else c

abbrev pub is_hex_char : ℕ → Bool
is_hex_char c = (leb b'0' c && leb c b'9') || (leb b'a' c && leb c b'f')

-- The stored verifier in the form that is compared.
abbrev pub verifier_of : Text → Text
verifier_of secret_hash = map lower_char (strip secret_hash)

unfoldable pub check_secret : (Text → Text) → MachineCredential → Text → Result (Unit {0})
check_secret sha256_hex credential client_secret = do
  let verifier = verifier_of credential.secret_hash
  deny_if (not (length verifier == 64) || not (every is_hex_char verifier))
      machine_credential_invalid
  deny_if (not (text_eq verifier (sha256_hex client_secret))) machine_credential_invalid

-- `_authenticate_credential`
unfoldable pub authenticate_credential :
    (Text → Text) → Text → Text → Instant → Db → Result MachineCredential
authenticate_credential sha256_hex client_id client_secret now db = do
  credential ← machine_credential client_id now db
  check_secret sha256_hex credential client_secret
  ok credential

abbrev pub is_asked : Text → Bool
is_asked p = not (is_empty p)

abbrev pub none_asked : List Text → Bool
none_asked [] = true
none_asked (p ∷ ps) = false

-- `_requested_permissions`
unfoldable pub requested_permissions : List Text → Result (List Text)
requested_permissions asked = do
  deny_if (none_asked (select is_asked asked)) permission_denied
  validate_permissions (select is_asked asked)

-- `_authorized_permissions`
unfoldable pub authorized_permissions : Uuid → Uuid → List Text → Instant → Db → Result (List Text)
authorized_permissions principal_id tenant_id asked now db = do
  requested ← requested_permissions asked
  stored ← machine_permissions principal_id tenant_id now db
  allowed ← validate_permissions stored
  deny_if (not (is_subset requested allowed)) permission_denied
  ok requested
