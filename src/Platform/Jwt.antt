-- ===== src/Platform/Jwt.antt =====
-- JSON claims, and `jwt.encode` and `jwt.decode` as parameters.
use verigence_security.Common.{
  Bool, true, false, not, ◌||◌, List, [], ◌∷◌, Option, Text, text_eq, is_empty, ◌==◌, if◌then◌else◌,
}
use verigence_security.Core.Types.{Instant, Double}

-- A number is held as the double that `float` makes of it.
mutual
  pub data Json : Type 0 where
    null : Json
    boolean : Bool → Json
    number : Double → Json
    text : Text → Json
    array : Items → Json
    object : Fields → Json

  pub data Items : Type 0 where
    nil : Items
    cons : Json → Items → Items

  pub data Fields : Type 0 where
    end : Fields
    field : Text → Json → Fields → Fields

abbrev pub Claims : Type 0
Claims = List (Text × Json)

-- `payload.get(key)`, in which a missing claim and a `null` are both `None`.
abbrev pub get : Text → Claims → Json
get k [] = null
get k ((j, v) ∷ cs) = let rest = get k cs in if text_eq j k then v else rest

abbrev pub get_field : Text → Fields → Json
get_field k end = null
get_field k (field j v fs) = let rest = get_field k fs in if text_eq j k then v else rest

-- The bits of 0.0 and -0.0.
abbrev pub is_zero : Double → Bool
is_zero x = x == 0 || x == 9223372036854775808

-- `bool(value)`
abbrev pub is_truthy : Json → Bool
is_truthy null = false
is_truthy (boolean b) = b
is_truthy (number x) = not (is_zero x)
is_truthy (text s) = not (is_empty s)
is_truthy (array nil) = false
is_truthy (array (cons v vs)) = true
is_truthy (object end) = false
is_truthy (object (field k v fs)) = true

abbrev pub texts : List Text → Items
texts [] = nil
texts (t ∷ ts) = cons (text t) (texts ts)

-- What `jwt.decode` returns or raises.
pub data Decoded : Type 0 where
  payload : Claims → Decoded
  expired invalid : Decoded

-- `encode key kid claims` is none where `jwt.encode` raises; `decode key issuer audience now token`
-- checks the signature, the issuer, the audience, the required claims and the expiry.
pub record Jwt : Type 0 where
  pub encode : Text → Text → Claims → Option Text
  pub decode : Text → Text → Text → Instant → Text → Decoded
  pub to_timestamp : Instant → Double
  pub from_timestamp : Double → Instant
  pub text_of : Json → Text
