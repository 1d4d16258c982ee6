-- ===== src/Tests/Platform.antt =====
-- A platform to run the code on: numbers for doubles, a zone at UTC, and tokens that stand for one
-- list of claims.
use mathlib.Core.Path.{◌≡◌, refl, ap, sym}
use mathlib.Core.Logic.{inl, inr}
use native.Mathlib.Omega.{arith}
use verigence_security.Common.{
  ◌+◌, ◌-◌, ◌*◌, ◌/◌, Bool, true, false, ◌&&◌, [], ◌∷◌, none, some, Text, codes, text_eq,
  text_eq_sound, leb, ltb, ◌==◌, Bool-cases, if◌then◌else◌,
}
use verigence_security.Core.Types.{VpnStatus}
use verigence_security.Platform.Doubles.{Doubles, IsOrdered}
use verigence_security.Platform.Zones.{Zone, Zones}
use verigence_security.Platform.Jwt.{
  Json, null, boolean, number, text, array, object, Items, nil, cons, Claims, payload, Jwt,
}
use verigence_security.Network.{mock_network_risk_adapter}
use verigence_security.Tokens.{Settings, token_payload}
use verigence_security.Tokens.RoundTrip.{KeysMatch, KeepsText}
use verigence_security.Runtime.{Runtime}

abbrev pub numbers : Doubles
numbers = record {
  of_int = λ n. n;
  add = λ x y. x + y;
  sub = λ x y. x - y;
  mul = λ x y. x * y;
  div = λ x y. x / y;
  pow = λ x y. x * x;
  radians = λ x. x;
  sin = λ x. some x;
  cos = λ x. some 1;
  asin = λ x. some x;
  sqrt = λ x. some x;
  lt = ltb;
  le = leb;
}

pub numbers-IsOrdered : IsOrdered numbers
numbers-IsOrdered = record {
  lt_irrefl = λ x. ground arith;
  lt_trans = λ x y z h k. ground arith;
  le_of_not_lt = λ x y n m h. ground arith;
  le_lt_trans = λ x y z h k. ground arith;
}

abbrev pub utc : Zone
utc = record { to_local = λ i. i; to_utc = λ w. w }

abbrev pub zones : Zones
zones name = some utc

same_bit : Bool → Bool → Bool
same_bit true true = true
same_bit false false = true
same_bit true false = false
same_bit false true = false

same_bit_sound : (a b : Bool) → same_bit a b ≡ true → a ≡ b
unfolding same_bit
same_bit_sound true true h = refl
same_bit_sound false false h = refl
same_bit_sound true false h = cc
same_bit_sound false true h = cc

mutual
  unfolding same_bit

  json_eq : Json → Json → Bool
  json_eq (number n) null = false
  json_eq (number n) (boolean b) = false
  json_eq (number n) (number m) = n == m
  json_eq (number n) (text t) = false
  json_eq (number n) (array ys) = false
  json_eq (number n) (object o) = false
  json_eq (text s) null = false
  json_eq (text s) (boolean b) = false
  json_eq (text s) (number m) = false
  json_eq (text s) (text t) = text_eq s t
  json_eq (text s) (array ys) = false
  json_eq (text s) (object o) = false
  json_eq (array xs) null = false
  json_eq (array xs) (boolean b) = false
  json_eq (array xs) (number m) = false
  json_eq (array xs) (text t) = false
  json_eq (array xs) (array ys) = items_eq xs ys
  json_eq (array xs) (object o) = false
  json_eq null y = false
  json_eq (boolean a) null = false
  json_eq (boolean a) (boolean b) = same_bit a b
  json_eq (boolean a) (number m) = false
  json_eq (boolean a) (text t) = false
  json_eq (boolean a) (array ys) = false
  json_eq (boolean a) (object o) = false
  json_eq (object a) y = false

  items_eq : Items → Items → Bool
  items_eq nil nil = true
  items_eq nil (cons y ys) = false
  items_eq (cons x xs) nil = false
  items_eq (cons x xs) (cons y ys) = json_eq x y && items_eq xs ys

unfoldable pub claims_eq : Claims → Claims → Bool
unfolding json_eq
claims_eq [] [] = true
claims_eq [] (d ∷ ds) = false
claims_eq (c ∷ cs) [] = false
claims_eq ((k, v) ∷ cs) ((j, w) ∷ ds) = text_eq k j && (json_eq v w && claims_eq cs ds)

mutual
  unfolding json_eq items_eq

  json_eq_sound : (x y : Json) → json_eq x y ≡ true → x ≡ y
  json_eq_sound (number n) null h = cc
  json_eq_sound (number n) (boolean b) h = cc
  json_eq_sound (number n) (number m) h = let e : n ≡ m = ground arith in ap number e
  json_eq_sound (number n) (text t) h = cc
  json_eq_sound (number n) (array ys) h = cc
  json_eq_sound (number n) (object o) h = cc
  json_eq_sound (text s) null h = cc
  json_eq_sound (text s) (boolean b) h = cc
  json_eq_sound (text s) (number m) h = cc
  json_eq_sound (text s) (text t) h = ap text (text_eq_sound s t h)
  json_eq_sound (text s) (array ys) h = cc
  json_eq_sound (text s) (object o) h = cc
  json_eq_sound (array xs) null h = cc
  json_eq_sound (array xs) (boolean b) h = cc
  json_eq_sound (array xs) (number m) h = cc
  json_eq_sound (array xs) (text t) h = cc
  json_eq_sound (array xs) (array ys) h = ap array (items_eq_sound xs ys h)
  json_eq_sound (array xs) (object o) h = cc
  json_eq_sound null y h = cc
  json_eq_sound (boolean a) null h = cc
  json_eq_sound (boolean a) (boolean b) h = ap boolean (same_bit_sound a b h)
  json_eq_sound (boolean a) (number m) h = cc
  json_eq_sound (boolean a) (text t) h = cc
  json_eq_sound (boolean a) (array ys) h = cc
  json_eq_sound (boolean a) (object o) h = cc
  json_eq_sound (object a) y h = cc

  items_eq_sound : (xs ys : Items) → items_eq xs ys ≡ true → xs ≡ ys
  items_eq_sound nil nil h = refl
  items_eq_sound nil (cons y ys) h = cc
  items_eq_sound (cons x xs) nil h = cc
  items_eq_sound (cons x xs) (cons y ys) h =
      let e = json_eq_sound x y (ground arith) in let f = items_eq_sound xs ys (ground arith) in cc

pub claims_eq_sound : (cs ds : Claims) → claims_eq cs ds ≡ true → cs ≡ ds
unfolding claims_eq
claims_eq_sound [] [] h = refl
claims_eq_sound [] (d ∷ ds) h = cc
claims_eq_sound (c ∷ cs) [] h = cc
claims_eq_sound ((k, v) ∷ cs) ((j, w) ∷ ds) h =
    let a = text_eq_sound k j (ground arith) in
    let b = json_eq_sound v w (ground arith) in let c = claims_eq_sound cs ds (ground arith) in cc

-- The token of one list of claims, and of no other.
abbrev pub one_token : Text
one_token = codes "token"

abbrev pub jwt_for : Claims → Jwt
jwt_for claims = record {
  encode = λ key id cs. if claims_eq cs claims then some one_token else none;
  decode = λ key issuer audience now token. payload claims;
  to_timestamp = λ i. i;
  from_timestamp = λ d. d;
  text_of = λ v. elim v [
    | text s ↦ s
    | null ↦ []
    | boolean b ↦ []
    | number n ↦ []
    | array xs ↦ []
    | object fs ↦ []
  ];
}

abbrev pub settings : Settings
settings = record {
  security_private_key_pem = codes "private";
  security_public_key_pem = codes "public";
  security_key_id = codes "k1";
  security_token_issuer = codes "security";
  security_token_audience = codes "services";
}

pub jwt_for-KeepsText : (cs : Claims) → KeepsText (jwt_for cs)
jwt_for-KeepsText cs s = refl

pub jwt_for-KeysMatch : (cs : Claims) → KeysMatch (jwt_for cs) settings
jwt_for-KeysMatch cs c ps now jti later t begun early h =
    elim (Bool-cases (claims_eq (token_payload (jwt_for cs) settings c ps now jti) cs)) [
      | inl e ↦
          ap payload (sym (claims_eq_sound (token_payload (jwt_for cs) settings c ps now jti) cs e))
      | inr f ↦ absurd (ground arith)
    ]

-- Tokens that always say the same, for the calls that only issue them.
abbrev pub any_jwt : Jwt
any_jwt = record (jwt_for []) { encode = λ key id cs. some one_token }

abbrev pub runtime : Runtime
runtime = record {
  doubles = numbers;
  zones = zones;
  jwt = any_jwt;
  uuid4 = λ n. 9000 + n;
  parse_uuid = λ t. none;
  sha256_hex = λ t. t;
  network = mock_network_risk_adapter VpnStatus.not_detected;
  settings = settings;
  others = λ db. db;
}
