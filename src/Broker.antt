-- ===== src/Broker.antt =====
-- cloud-container/mosquitto/aclfile: who may read and write which topics. Mosquitto itself is outside:
-- how it matches a topic, expands a pattern and reads the file is a record of functions, with laws
-- that are its documentation's.
pub mod Isolation
pub mod Writing
pub mod Serving
pub mod Reading
pub mod Commanding
use cloud_robotics.Prelude.{
  ℕ, Text, lit, ◌++◌, ◌==◌, Bool, true, false, ◌&&◌, ◌||◌, List, [], ◌∷◌, ◌≡◌, ◌≢◌, ◌↔◌, All,
}
use cloud_robotics.Backend.Topics.Parsing.{Lacks}

pub data Access : Type 0 where
  read write readwrite : Access

-- A `topic` line under a `user` line, and a `pattern` line.
pub data Rule : Type 0 where
  topic : Text → Access → Text → Rule
  pattern : Access → Text → Rule

-- What a client asks for: to be sent a message of a topic, or to publish one.
pub data Request : Type 0 where
  reading writing : Request

abbrev pub includes : Access → Request → Bool
includes read reading = true
includes read writing = false
includes write reading = false
includes write writing = true
includes readwrite _ = true

-- A text without wildcards.
abbrev pub IsPlain : Text → Type 0
IsPlain t = All (λ c. (c ≢ b'+') × (c ≢ b'#')) t

-- Whether one line grants a request, given the two functions on topics.
abbrev pub grants :
    (Text → Text → Bool) → (Text → Text → Text) → Rule → Text → Request → Text → Bool
grants matches expand (topic who access filter) user request t =
    who == user && (includes access request && matches filter t)
grants matches expand (pattern access filter) user request t =
    includes access request && matches (expand user filter) t

abbrev pub any_grants :
    (Text → Text → Bool) → (Text → Text → Text) → List Rule → Text → Request → Text → Bool
any_grants matches expand [] user request t = false
any_grants matches expand (rule ∷ rules) user request t =
    grants matches expand rule user request t || any_grants matches expand rules user request t

-- mosquitto.conf(5) and mosquitto(7): a filter without wildcards matches itself, `+` stands for one
-- level; `%u` in a pattern is the username; a request is granted if a line grants it, patterns for
-- every user.
pub record Mosquitto : Type 0 where
  pub matches : Text → Text → Bool
  pub expand : Text → Text → Text
  pub allows : List Rule → Text → Request → Text → Bool
  pub matches_plain : (f t : Text) → IsPlain f → matches f t ≡ (f == t)
  pub matches_level :
      (f g t : Text)
      → IsPlain f
      → IsPlain g
      → (matches (f ++ lit "/+/" ++ g) t ≡ true)
        ↔ ((level : Text) × Lacks b'/' level × (t ≡ f ++ (b'/' ∷ (level ++ (b'/' ∷ g)))))
  pub expand-nil : (u : Text) → expand u [] ≡ []
  pub expand-user : (u t : Text) → expand u (b'%' ∷ b'u' ∷ t) ≡ u ++ expand u t
  pub expand-char : (u t : Text) (c : ℕ) → c ≢ b'%' → expand u (c ∷ t) ≡ c ∷ expand u t
  pub allows_lem :
      (rules : List Rule) (user : Text) (request : Request) (t : Text)
      → allows rules user request t ≡ any_grants matches expand rules user request t

-- The file's user.
abbrev pub backend : Text
backend = lit "backend"

-- The `topic` lines under a `user` line.
abbrev pub under : Text → List (Access × Text) → List Rule
under user [] = []
under user ((access, filter) ∷ lines) = topic user access filter ∷ under user lines

abbrev pub backend_lines : List (Access × Text)
backend_lines =
    (readwrite, lit "robots/+/cmd")
    ∷ (read, lit "robots/+/telemetry")
    ∷ (read, lit "robots/+/health")
    ∷ (read, lit "robots/+/status")
    ∷ (write, lit "robots/+/camera/offer")
    ∷ (read, lit "robots/+/camera/answer")
    ∷ (read, lit "robots/+/heartbeat")
    ∷ (read, lit "robots/+/lidar")
    ∷ []

abbrev pub patterns : List Rule
patterns =
    pattern read (lit "robots/%u/cmd")
    ∷ pattern write (lit "robots/%u/telemetry")
    ∷ pattern write (lit "robots/%u/health")
    ∷ pattern write (lit "robots/%u/status")
    ∷ pattern read (lit "robots/%u/camera/offer")
    ∷ pattern write (lit "robots/%u/camera/answer")
    ∷ pattern write (lit "robots/%u/heartbeat")
    ∷ pattern write (lit "robots/%u/lidar")
    ∷ []

pub aclfile : List Rule
aclfile = under backend backend_lines ++ patterns
