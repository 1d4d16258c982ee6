-- ===== src/Access/Machine/TokenSubject.antt =====
-- The claims of a user's token that `exchange_user_token` takes over.
use verigence_security.Common.{
  Bool, false, not, List, [], ◌∷◌, Text, codes, text_eq, is_empty, if◌then◌else◌,
}
use verigence_security.Core.Types.{Double}
use verigence_security.Core.Errors.{auth_token_invalid}
use verigence_security.Core.Result.{Result, ok, deny, ◌>>=◌, ◌>>◌, deny_if}
use verigence_security.Platform.Doubles.{Doubles}
use verigence_security.Platform.Jwt.{
  Json, boolean, number, text, array, Items, nil, cons, Claims, get,
}

pub record Subject : Type 0 where
  pub subject : Text
  pub tenant_id : Text
  pub access_session_id : Text
  pub roles : List Text
  pub device_id : Text
  pub location_id : Text
  pub user_permissions : List Text
  pub expires_at : Double

-- `claims.get("actor_type") != "USER"`
abbrev pub is_user_claim : Json → Bool
is_user_claim (text s) = text_eq s (codes "USER")
is_user_claim _ = false

-- `isinstance(value, str) and value`
abbrev pub claim_text : Json → Result Text
claim_text (text s) = if is_empty s then deny auth_token_invalid else ok s
claim_text _ = deny auth_token_invalid

-- `all(isinstance(item, str) for item in value)`
abbrev pub item_text : Json → Result Text
item_text (text s) = ok s
item_text _ = deny auth_token_invalid

abbrev pub items_texts : Items → Result (List Text)
items_texts nil = ok []
items_texts (cons v vs) = item_text v >>= λ t. items_texts vs >>= λ ts. ok (t ∷ ts)

abbrev pub claim_texts : Json → Result (List Text)
claim_texts (array vs) = items_texts vs
claim_texts _ = deny auth_token_invalid

-- `isinstance(value, (int, float))`, which a Boolean is too, then `float(value)`.
abbrev pub claim_number : Doubles → Json → Result Double
claim_number d (number x) = ok x
claim_number d (boolean b) = ok (d.of_int (if b then 1 else 0))
claim_number d _ = deny auth_token_invalid

-- The tests all raise the same, so their order does not show.
unfoldable pub subject_of_claims : Doubles → Claims → Result Subject
subject_of_claims d claims = do
  deny_if (not (is_user_claim (get (codes "actor_type") claims))) auth_token_invalid
  subject ← claim_text (get (codes "sub") claims)
  tenant_id ← claim_text (get (codes "tenant_id") claims)
  access_session_id ← claim_text (get (codes "access_session_id") claims)
  roles ← claim_texts (get (codes "roles") claims)
  device_id ← claim_text (get (codes "device_id") claims)
  location_id ← claim_text (get (codes "location_id") claims)
  user_permissions ← claim_texts (get (codes "permissions") claims)
  expires_at ← claim_number d (get (codes "exp") claims)
  ok (record {
    subject = subject;
    tenant_id = tenant_id;
    access_session_id = access_session_id;
    roles = roles;
    device_id = device_id;
    location_id = location_id;
    user_permissions = user_permissions;
    expires_at = expires_at;
  })
