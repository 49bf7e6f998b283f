-- ===== src/Broker/Isolation.antt =====
-- What the broker lets a robot publish, and whose messages the backend takes them for.
use cloud_robotics.Prelude.{
  ℕ, Text, lit, ◌++◌, ==_iff, ==_of_ne, true, ◌||◌, Bool-cases, inl, inr, some, List, [], ◌∷◌, map,
  ◌≡◌, refl, sym, ap, ◌∙◌, ◌≢◌, All, All-append, arith, append-nil,
}
use cloud_robotics.Json.{Json, Wire, encoded, malformed}
use cloud_robotics.Backend.Topics.{parse_topic}
use cloud_robotics.Backend.Topics.Parsing.{IsRobotId, parse_topic-robot_topics}
use cloud_robotics.Backend.Mqtt.{Mqtt, handlers_of, handle_message}
use cloud_robotics.Backend.Main.{Handler, mqtt_service}
use cloud_robotics.Broker.{
  Rule, pattern, Access, write, Request, writing, IsPlain, grants, any_grants, Mosquitto, backend,
  backend_lines, patterns, under, aclfile,
}

-- The robot that a call of a handler names.
abbrev pub named : Handler × Text × Json → Text
named (handler, robot_id, payload) = robot_id

map-named :
    (hs : List Handler) (u : Text) (p : Json)
    → All (λ call. named call ≡ u) (map (λ h. (h, u, p)) hs)
map-named [] u p = tt
map-named (h ∷ hs) u p = (refl, map-named hs u p)

handle_message-named :
    (m : Mqtt Handler) (t u suffix : Text) (payload : Wire)
    → parse_topic t ≡ some (u, suffix)
    → All (λ call. named call ≡ u) (handle_message m t payload)
unfolding handle_message
handle_message-named m t u suffix malformed parsed = rw parsed tt
handle_message-named m t u suffix (encoded p) parsed = elim (Bool-cases m.has_loop) [
  | inl e ↦ rw (parsed, e) (map-named (handlers_of suffix m.handlers) u p)
  | inr e ↦ rw (parsed, e) tt
]

pub topic-IsPlain :
    (u suffix : Text)
    → IsPlain u
    → IsPlain suffix
    → IsPlain (lit "robots/" ++ (u ++ (b'/' ∷ suffix)))
topic-IsPlain u suffix plain plain' =
    let both = λ (c : ℕ). (c ≢ b'+') × (c ≢ b'#') in
    All-append both (lit "robots/") (u ++ (b'/' ∷ suffix)) (ground arith)
      (All-append both u (b'/' ∷ suffix) plain (ground arith, plain'))

module _ (m : Mosquitto) where
  pub any_grants-append :
      (xs ys : List Rule) (u : Text) (request : Request) (t : Text)
      → any_grants m.matches m.expand (xs ++ ys) u request t
        ≡ any_grants m.matches m.expand xs u request t
          || any_grants m.matches m.expand ys u request t
  any_grants-append [] ys u request t = refl
  any_grants-append (r ∷ xs) ys u request t = ground (arith, any_grants-append xs ys u request t)

  -- A request that is granted is granted by a line.
  pub by_line :
      {P : Type 0} (rules : List Rule) (user : Text) (request : Request) (t : Text)
      → All (λ r. grants m.matches m.expand r user request t ≡ true → P) rules
      → any_grants m.matches m.expand rules user request t ≡ true
      → P
  by_line [] user request t h e = cc
  by_line (r ∷ rules) user request t h e =
      elim (Bool-cases (grants m.matches m.expand r user request t)) [
        | inl granted ↦ h.0 granted
        | inr other ↦ by_line rules user request t h.1 (ground arith)
      ]

  expand-append : (u p t : Text) → All (λ c. c ≢ b'%') p → m.expand u (p ++ t) ≡ p ++ m.expand u t
  expand-append u [] t h = refl
  expand-append u (c ∷ p) t h =
      m.expand-char u (p ++ t) c h.0 ∙ ap (λ x. c ∷ x) (expand-append u p t h.1)

  -- A pattern of one robot's topics is that robot's topic.
  pub expand_pattern :
      (u suffix : Text)
      → All (λ c. c ≢ b'%') suffix
      → m.expand u (lit "robots/%u/" ++ suffix) ≡ lit "robots/" ++ (u ++ (b'/' ∷ suffix))
  expand_pattern u suffix h =
      expand-append u (lit "robots/") (b'%' ∷ b'u' ∷ b'/' ∷ suffix) (omega arith)
      ∙ ap (λ x. lit "robots/" ++ x)
          (m.expand-user u (b'/' ∷ suffix)
            ∙ ap (λ x. u ++ x)
                (ap (λ x. m.expand u (b'/' ∷ x)) (sym (append-nil suffix))
                  ∙ expand-append u (b'/' ∷ suffix) [] (omega arith, h)
                  ∙ ap (λ x. b'/' ∷ (suffix ++ x)) (m.expand-nil u)
                  ∙ ap (λ x. b'/' ∷ x) (append-nil suffix)))

  -- What a line grants to a client that is not the backend: the topics of its own name.
  pub own :
      (u t suffix : Text) (access : Access) (request : Request)
      → IsPlain u
      → IsPlain suffix
      → All (λ c. c ≢ b'%') suffix
      → grants m.matches m.expand (pattern access (lit "robots/%u/" ++ suffix)) u request t ≡ true
      → t ≡ lit "robots/" ++ (u ++ (b'/' ∷ suffix))
  own u t suffix access request plain plain' literal e =
      let f = lit "robots/" ++ (u ++ (b'/' ∷ suffix)) in
      let plain_f = topic-IsPlain u suffix plain plain' in
      ground (arith, m.matches_plain f t plain_f, expand_pattern u suffix literal, ==_iff f t)

  -- The lines of another user grant nothing.
  pub others :
      (user u t : Text) (request : Request) (lines : List (Access × Text)) (rules : List Rule)
      → u ≢ user
      → any_grants m.matches m.expand (under user lines ++ rules) u request t
        ≡ any_grants m.matches m.expand rules u request t
  others user u t request [] rules ne = refl
  others user u t request ((access, filter) ∷ lines) rules ne =
      ground (arith, ==_of_ne user u (λ q. ne (sym q)), others user u t request lines rules ne)

  published :
      (u t suffix : Text)
      → IsPlain u
      → IsPlain suffix
      → All (λ c. c ≢ b'%') suffix
      → parse_topic (lit "robots/" ++ (u ++ (b'/' ∷ suffix))) ≡ some (u, suffix)
      → suffix ≢ lit "cmd"
      → grants m.matches m.expand (pattern write (lit "robots/%u/" ++ suffix)) u writing t ≡ true
      → (suffix : Text) × (parse_topic t ≡ some (u, suffix)) × (suffix ≢ lit "cmd")
  published u t suffix plain plain' literal back ne e =
      (suffix, ap parse_topic (own u t suffix write writing plain plain' literal e) ∙ back, ne)

  -- What the patterns let a client publish is a topic that the backend reads as that client's,
  -- and no command.
  pub patterns-own :
      (u t : Text)
      → IsRobotId u
      → IsPlain u
      → any_grants m.matches m.expand patterns u writing t ≡ true
      → (suffix : Text) × (parse_topic t ≡ some (u, suffix)) × (suffix ≢ lit "cmd")
  patterns-own u t id plain =
      let (status, telemetry, health, heartbeat, lidar, answer) = parse_topic-robot_topics u id in
      by_line patterns u writing t (
        λ h. cc,
        (
          published u t (lit "telemetry") plain (ground arith) (omega arith) telemetry
              (ground arith),
          (
            published u t (lit "health") plain (ground arith) (omega arith) health (ground arith),
            (
              published u t (lit "status") plain (ground arith) (omega arith) status (ground arith),
              (
                λ h. cc,
                (
                  published u t (lit "camera/answer") plain (ground arith) (omega arith) answer
                      (ground arith),
                  (
                    published u t (lit "heartbeat") plain (ground arith) (omega arith) heartbeat
                        (ground arith),
                    (
                      published u t (lit "lidar") plain (ground arith) (omega arith) lidar
                          (ground arith),
                      tt,
                    ),
                  ),
                ),
              ),
            ),
          ),
        ),
      )

  -- Whatever a robot publishes, and the broker lets through, reaches the backend's handlers as a
  -- message of that robot: no call names another one, for any topic and payload. The robot's id is its
  -- user name, not the backend's, and has no slash and no wildcard.
  pub no_impersonation :
      (u t : Text) (payload : Wire)
      → IsRobotId u
      → IsPlain u
      → u ≢ backend
      → m.allows aclfile u writing t ≡ true
      → All (λ call. named call ≡ u) (handle_message mqtt_service t payload)
  unfolding aclfile
  no_impersonation u t payload id plain ne e =
      let granted =
        sym (others backend u t writing backend_lines patterns ne)
        ∙ sym (m.allows_lem aclfile u writing t)
        ∙ e in
      let (suffix, parsed, _) = patterns-own u t id plain granted in
      handle_message-named mqtt_service t u suffix payload parsed
