-- ===== src/Tests/Tokens.antt =====
-- A token format with the laws of `Jwt`, and the theorems on logins at it. A token is the two times,
-- the length of the name, the name and the secret: it signs nothing, and serves to run the code.
use cloud_robotics.Prelude.{
  ℕ, zero, suc, Text, lit, ◌==◌, ==_refl, ◌≡◌, refl, ◌≢◌, ◌⊎◌, false, Option, none, some, [], ◌∷◌,
  ◌++◌, arith, ltb, leb, ◌&&◌, length, if◌then◌else◌,
}
use cloud_robotics.Exec.{type_error}
use cloud_robotics.Backend.Auth.{
  Claims, Jwt, Settings, value, raised, unauthorized, login, get_current_operator,
  get_current_operator_ws,
}
use cloud_robotics.Backend.Auth.Tokens.{login_lem, comparable}

-- The first `n` of a text and the rest.
abbrev split_at : ℕ → Text → Text × Text
split_at zero t = ([], t)
split_at (suc n) [] = ([], [])
split_at (suc n) (c ∷ t) = let (s, rest) = split_at n t in (c ∷ s, rest)

split_at-append : (s t : Text) → split_at (length s) (s ++ t) ≡ (s, t)
split_at-append [] t = refl
split_at-append (c ∷ s) t = ground (arith, split_at-append s t)

abbrev checked : ℕ → ℕ → ℕ → Text → Text × Text → Option Claims
checked iat exp now secret (sub, signed) =
    if signed == secret
    then (if leb iat now && ltb now exp
        then some (record { sub = sub; iat = iat; exp = exp })
        else none)
    else none

abbrev decode : Text → Text → Text → ℕ → Option Claims
decode (iat ∷ exp ∷ n ∷ t) secret algorithm now = checked iat exp now secret (split_at n t)
decode (iat ∷ exp ∷ []) secret algorithm now = none
decode (iat ∷ []) secret algorithm now = none
decode [] secret algorithm now = none

abbrev encode : Claims → Text → Text → Text
encode c secret algorithm = c.iat ∷ c.exp ∷ length c.sub ∷ (c.sub ++ secret)

decode-encode :
    (c : Claims) (secret algorithm : Text) (now : ℕ)
    → decode (encode c secret algorithm) secret algorithm now
      ≡ (if leb c.iat now && ltb now c.exp then some c else none)
decode-encode c secret algorithm now = ground (arith, split_at-append c.sub secret, ==_refl secret)

decode-encode_other :
    (c : Claims) (secret other algorithm : Text) (now : ℕ)
    → (secret == other) ≡ false
    → decode (encode c secret algorithm) other algorithm now ≡ none
decode-encode_other c secret other algorithm now h = ground (arith, split_at-append c.sub secret, h)

abbrev plain_jwt : Jwt
plain_jwt = record {
  encode = encode;
  decode = decode;
  decode-encode = decode-encode;
  decode-encode_other = decode-encode_other;
}

abbrev settings : Settings
settings = record {
  operator_username = lit "operator";
  operator_password = lit "changeme";
  jwt_secret = lit "secret";
  jwt_algorithm = lit "HS256";
  jwt_expiry_seconds = 3600;
}

login_lem_example :
    ((comparable (lit "operator") (lit "changeme") settings ≡ false)
      × (login plain_jwt (lit "operator") (lit "changeme") settings 100 ≡ raised type_error))
    ⊎ ((lit "operator" ≡ settings.operator_username)
        × (lit "changeme" ≡ settings.operator_password)
        × (token : Text) × (login plain_jwt (lit "operator") (lit "changeme") settings 100
            ≡ value token)
        × (get_current_operator plain_jwt (some token) settings 200 ≡ value (lit "operator"))
        × (get_current_operator_ws plain_jwt token settings 200
            ≡ get_current_operator plain_jwt (some token) settings 200))
    ⊎ ((login plain_jwt (lit "operator") (lit "changeme") settings 100
          ≡ unauthorized (lit "Invalid credentials"))
        × (lit "operator" ≡ settings.operator_username
            → lit "changeme" ≢ settings.operator_password))
login_lem_example = login_lem plain_jwt (lit "operator") (lit "changeme") settings 100 200

abbrev forged : Claims
forged = record { sub = lit "operator"; iat = 0; exp = 1000 }

other_secret : lit "guess" ≢ settings.jwt_secret
other_secret e = ground arith
