-- ===== src/Backend/Auth.antt =====
-- cloud-container/backend/app/auth: the operator's credential (service.py), its token (tokens.py)
-- and the check of a request (dependencies.py). PyJWT is outside: a record of its two functions
-- with what its documentation says of them. `hmac.compare_digest` is equality of texts in ASCII, and
-- raises for others; that it takes constant time is not modelled.
pub mod Tokens
use cloud_robotics.Prelude.{
  ℕ, ◌+◌, Text, lit, ◌==◌, ◌≡◌, Bool, true, ◌&&◌, Option, none, some, [], ◌∷◌, ltb, leb,
  if◌then◌else◌,
}
use cloud_robotics.Exec.{Result, ok, err, Error, type_error}
use cloud_robotics.Results.{◌>>=◌}

-- {"sub": …, "iat": …, "exp": …}
pub record Claims : Type 0 where
  pub sub : Text
  pub iat : ℕ
  pub exp : ℕ

-- `decode` is at a time, in seconds; `none` is a PyJWTError: a token that has expired, that is issued
-- in the future, or that the secret did not sign.
pub record Jwt : Type 0 where
  pub encode : Claims → Text → Text → Text
  pub decode : Text → Text → Text → ℕ → Option Claims
  pub decode-encode :
      (c : Claims) (secret algorithm : Text) (now : ℕ)
      → decode (encode c secret algorithm) secret algorithm now
        ≡ (if leb c.iat now && ltb now c.exp then some c else none)
  pub decode-encode_other :
      (c : Claims) (secret other algorithm : Text) (now : ℕ)
      → (secret == other) ≡ Bool.false
      → decode (encode c secret algorithm) other algorithm now ≡ none

-- The fields of config.py's Settings that are read here.
pub record Settings : Type 0 where
  pub operator_username : Text
  pub operator_password : Text
  pub jwt_secret : Text
  pub jwt_algorithm : Text
  pub jwt_expiry_seconds : ℕ

abbrev pub is_ascii : Text → Bool
is_ascii [] = true
is_ascii (c ∷ t) = ltb c 128 && is_ascii t

-- `hmac.compare_digest` of two texts.
abbrev pub compare_digest : Text → Text → Result Bool
compare_digest a b = if is_ascii a && is_ascii b then ok (a == b) else err type_error

pub authenticate : Text → Text → Settings → Result Bool
authenticate username password settings = do
  username_ok ← compare_digest username settings.operator_username
  password_ok ← compare_digest password settings.operator_password
  ok (username_ok && password_ok)

-- An HTTP error with its status and detail. What a request does not catch, `raised`, is a 500.
pub record HttpError : Type 0 where
  pub status : ℕ
  pub detail : Text

pub data Answer (A : Type 0) : Type 0 where
  value : A → Answer A
  http : HttpError → Answer A
  raised : Error → Answer A

abbrev pub unauthorized : {A : Type 0} → Text → Answer A
unauthorized detail = http (record { status = 401; detail = detail })

module _ (jwt : Jwt) where
  pub create_access_token : Text → Text → Text → ℕ → ℕ → Text
  create_access_token subject secret algorithm expiry_seconds now =
      jwt.encode (record { sub = subject; iat = now; exp = now + expiry_seconds }) secret algorithm

  abbrev subject_of : Option Claims → Option Text
  subject_of none = none
  subject_of (some c) = some c.sub

  pub decode_access_token : Text → Text → Text → ℕ → Option Text
  decode_access_token token secret algorithm now =
      subject_of (jwt.decode token secret algorithm now)

  -- api/auth.py: the access token of the response.
  pub login : Text → Text → Settings → ℕ → Answer Text
  unfolding create_access_token authenticate
  login username password settings now = elim (authenticate username password settings) [
    | err e ↦ raised e
    | ok same ↦
        if same
        then value (
            create_access_token username settings.jwt_secret settings.jwt_algorithm
              settings.jwt_expiry_seconds now)
        else unauthorized (lit "Invalid credentials")
  ]

  abbrev or_unauthorized : Option Text → Answer Text
  or_unauthorized none = unauthorized (lit "Invalid or expired token")
  or_unauthorized (some operator) = value operator

  pub get_current_operator : Option Text → Settings → ℕ → Answer Text
  unfolding decode_access_token
  get_current_operator none settings now = unauthorized (lit "Missing bearer token")
  get_current_operator (some credentials) settings now =
      or_unauthorized
        (decode_access_token credentials settings.jwt_secret settings.jwt_algorithm now)

  -- The token of `?token=`; a refused one also closes the socket.
  pub get_current_operator_ws : Text → Settings → ℕ → Answer Text
  unfolding decode_access_token
  get_current_operator_ws token settings now =
      or_unauthorized (decode_access_token token settings.jwt_secret settings.jwt_algorithm now)
