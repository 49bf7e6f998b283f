-- ===== src/Backend/Auth/Tokens.antt =====
-- What a login is worth (cloud-container/backend/app/api/auth.py and auth/).
use cloud_robotics.Prelude.{
  ℕ, ◌+◌, Text, lit, ==_iff, ◌≡◌, refl, ◌≢◌, ◌⊎◌, Bool-cases, inl, inr, none, some, arith, ltb, leb,
  ◌&&◌, ◌==◌, Bool, false, ==_of_ne, if◌then◌else◌,
}
use cloud_robotics.Exec.{ok, err, type_error}
use cloud_robotics.Backend.Auth.{
  Claims, Jwt, Settings, is_ascii, value, raised, unauthorized, authenticate, create_access_token,
  login, get_current_operator, get_current_operator_ws,
}

-- Whether four texts are in ASCII.
abbrev pub comparable : Text → Text → Settings → Bool
comparable username password s =
    (is_ascii username && is_ascii s.operator_username)
    && (is_ascii password && is_ascii s.operator_password)

authenticate_lem :
    (username password : Text) (s : Settings)
    → authenticate username password s ≡ (
        if comparable username password s
        then ok (username == s.operator_username && password == s.operator_password)
        else err type_error)
unfolding authenticate
authenticate_lem username password s = ground arith

-- A login with a name or a password that is not in ASCII raises, and so does each one if the
-- configured ones are not. Any other with the configured name and password answers a token: from the
-- login on until it expires a request and a socket that carry it are the named operator's, and they
-- are refused at any other time. Any other with another name or password is refused.
pub login_lem :
    (jwt : Jwt) (username password : Text) (s : Settings) (now later : ℕ)
    → ((comparable username password s ≡ false)
        × (login jwt username password s now ≡ raised type_error))
      ⊎ ((username ≡ s.operator_username)
          × (password ≡ s.operator_password)
          × (token : Text) × (login jwt username password s now ≡ value token)
          × (get_current_operator jwt (some token) s later ≡ (
              if leb now later && ltb later (now + s.jwt_expiry_seconds)
              then value username
              else unauthorized (lit "Invalid or expired token")))
          × (get_current_operator_ws jwt token s later
              ≡ get_current_operator jwt (some token) s later))
      ⊎ ((login jwt username password s now ≡ unauthorized (lit "Invalid credentials"))
          × (username ≡ s.operator_username → password ≢ s.operator_password))
unfolding login get_current_operator get_current_operator_ws create_access_token
login_lem jwt username password s now later =
    let claims : Claims = record { sub = username; iat = now; exp = now + s.jwt_expiry_seconds } in
    let decoded = jwt.decode-encode claims s.jwt_secret s.jwt_algorithm later in
    let same_name = ==_iff username s.operator_username in
    let same_password = ==_iff password s.operator_password in
    let checked = authenticate_lem username password s in
    elim (Bool-cases (comparable username password s)) [
      | inr other ↦ inl (other, ground (arith, checked, other))
      | inl plain ↦
          elim (Bool-cases (username == s.operator_username && password == s.operator_password)) [
            | inl e ↦ inr (
                inl (
                  ground (arith, same_name, e),
                  ground (arith, same_password, e),
                  jwt.encode claims s.jwt_secret s.jwt_algorithm,
                  ground (arith, checked, plain, e),
                  ground (arith, decoded),
                  refl,
                ))
            | inr e ↦ inr (
                inr (
                  ground (arith, checked, plain, e),
                  λ a b. ground (arith, same_name, same_password, a, b, e),
                ))
          ]
    ]

-- A token that another secret signed is refused, at every time, whatever it claims; so is a request
-- that carries none.
pub forged_token :
    (jwt : Jwt) (c : Claims) (secret : Text) (s : Settings) (now : ℕ)
    → secret ≢ s.jwt_secret
    → (get_current_operator jwt (some (jwt.encode c secret s.jwt_algorithm)) s now
        ≡ unauthorized (lit "Invalid or expired token"))
      × (get_current_operator jwt none s now ≡ unauthorized (lit "Missing bearer token"))
unfolding get_current_operator
forged_token jwt c secret s now ne = (
  ground (
    arith,
    jwt.decode-encode_other c secret s.jwt_secret s.jwt_algorithm now
        (==_of_ne secret s.jwt_secret ne),
  ),
  refl,
)
