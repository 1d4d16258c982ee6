-- ===== src/Config.antt =====
-- config.py: the rules that a configuration must meet before the service starts. The defaults and the
-- reading of the environment are those of the settings library.
pub mod Safe
use verigence_security.Common.{
  ℕ, ◌+◌, Bool, true, false, ◌&&◌, ◌||◌, not, List, [], ◌∷◌, map, Option, none, some, Text, codes,
  text_eq, is_empty, leb, ◌==◌, select, if◌then◌else◌,
}
use verigence_security.Core.Types.{AppEnvironment}
use verigence_security.Core.Errors.{value_error}
use verigence_security.Core.Result.{Result, ok, err, ◌>>=◌, ◌>>◌}
use verigence_security.Access.Machine.Credential.{strip}

-- The fields that the rules read.
pub record Settings : Type 0 where
  pub app_env : AppEnvironment
  pub database_url : Text
  pub clerk_secret_key : Text
  pub clerk_authorized_parties : Text
  pub security_bootstrap_enabled : Bool
  pub security_bootstrap_super_admin_clerk_user_id : Text
  pub platform_bootstrap_enabled : Bool
  pub platform_bootstrap_login : Text
  pub platform_bootstrap_password : Text
  pub platform_admin_token_ttl_minutes : Option ℕ
  pub dev_mock_auth_enabled : Bool
  pub dev_mock_signing_secret : Text
  pub dev_mock_token_ttl_minutes : Option ℕ
  pub network_risk_mode : Text

-- `value.replace("\\n", "\n")`
abbrev pub normalize_pem : Text → Text
normalize_pem [] = []
normalize_pem (c ∷ []) = c ∷ []
normalize_pem (c ∷ d ∷ t) =
    let skipped = normalize_pem t in
    let kept = normalize_pem (d ∷ t) in if c == b'\\' && d == b'n' then 10 ∷ skipped else c ∷ kept

abbrev pub is_protected : AppEnvironment → Bool
is_protected AppEnvironment.uat = true
is_protected AppEnvironment.production = true
is_protected _ = false

abbrev pub is_production : AppEnvironment → Bool
is_production AppEnvironment.production = true
is_production _ = false

-- `str.lower()` of one code point, as far as `mock` has letters: U+212A is the other one whose lower case
-- is a `k`.
abbrev pub lower_char : ℕ → ℕ
lower_char c = if leb b'A' c && leb c b'Z' then c + 32 else if c == 8490 then b'k' else c

-- `network_risk_mode.lower() == "mock"`
abbrev pub is_mock : Text → Bool
is_mock mode = text_eq (map lower_char mode) (codes "mock")

-- `not value.strip()`
abbrev pub is_blank : Text → Bool
is_blank t = is_empty (strip t)

abbrev pub unset : Option ℕ → Bool
unset none = true
unset (some n) = false

abbrev pub refuse_if : Bool → Result (Unit {0})
refuse_if true = err value_error
refuse_if false = ok tt

abbrev pub when : Bool → Result (Unit {0}) → Result (Unit {0})
when true r = r
when false r = ok tt

unfoldable pub mock_rules : Settings → Result (Unit {0})
mock_rules s = do
  refuse_if (is_empty s.dev_mock_signing_secret)
  refuse_if (unset s.dev_mock_token_ttl_minutes)

unfoldable pub platform_bootstrap_rules : Settings → Result (Unit {0})
platform_bootstrap_rules s = do
  refuse_if (is_protected s.app_env)
  refuse_if (is_blank s.platform_bootstrap_login)
  refuse_if (is_empty s.platform_bootstrap_password)

unfoldable pub security_bootstrap_rules : Settings → Result (Unit {0})
security_bootstrap_rules s = do
  refuse_if (is_empty s.database_url)
  refuse_if (is_blank s.clerk_secret_key)
  refuse_if (is_blank s.security_bootstrap_super_admin_clerk_user_id)
  refuse_if (unset s.platform_admin_token_ttl_minutes)

unfoldable pub safety_rules : Settings → Result Settings
unfolding mock_rules platform_bootstrap_rules security_bootstrap_rules
safety_rules s = do
  refuse_if (is_protected s.app_env && s.dev_mock_auth_enabled)
  refuse_if (is_protected s.app_env && is_mock s.network_risk_mode)
  refuse_if (is_protected s.app_env && is_blank s.clerk_secret_key)
  refuse_if (is_production s.app_env && is_empty s.database_url)
  when s.dev_mock_auth_enabled (mock_rules s)
  when s.platform_bootstrap_enabled (platform_bootstrap_rules s)
  when s.security_bootstrap_enabled (security_bootstrap_rules s)
  ok s

-- `value.split(",")`
abbrev pub split_commas : Text → List Text
split_commas [] = [] ∷ []
split_commas (c ∷ t) = extend (c == b',') c (split_commas t)
  where
    extend : Bool → ℕ → List Text → List Text
    extend true c parts = [] ∷ parts
    extend false c [] = (c ∷ []) ∷ []
    extend false c (p ∷ parts) = (c ∷ p) ∷ parts

unfoldable pub clerk_authorized_party_list : Settings → List Text
clerk_authorized_party_list s =
    select (λ x. not (is_empty x)) (map strip (split_commas s.clerk_authorized_parties))
