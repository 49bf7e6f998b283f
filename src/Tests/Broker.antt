-- ===== src/Tests/Broker.antt =====
-- A broker that follows Mosquitto's documentation for the file's filters, and the theorems on the
-- access rules at one robot.
use cloud_robotics.Prelude.{
  ℕ, Text, lit, ◌++◌, ◌==◌, ==_iff, ==_refl, Bool, true, false, ◌&&◌, Option, none, some, [], ◌∷◌,
  ◌≡◌, ◌≢◌, ◌↔◌, ◌⊎◌, refl, sym, ap, ◌∙◌, All, All-append, arith, append_assoc, nat_beq,
}
use cloud_robotics.Json.{encoded, str}
use cloud_robotics.Backend.Topics.{parse_topic, span_ne, strip_prefix}
use cloud_robotics.Backend.Topics.Parsing.{
  Lacks, IsRobotId, span_ne-append, span_ne_all, span_ne-Lacks, append-span_ne, strip_prefix-append,
  append_of_strip_prefix,
}
use cloud_robotics.Backend.Topics.{cmd_topic, camera_offer_topic}
use cloud_robotics.Backend.Mqtt.{handle_message}
use cloud_robotics.Backend.Main.{mqtt_service}
use cloud_robotics.Robot.Topics
use cloud_robotics.Broker.Isolation.{named, no_impersonation}
use cloud_robotics.Broker.Writing.{backend_writes}
use cloud_robotics.Broker.Serving.{both_served}
use cloud_robotics.Broker.Reading.{reads_own}
use cloud_robotics.Broker.Commanding.{commanded_by_backend}
use cloud_robotics.Broker.{IsPlain, any_grants, Mosquitto, backend, aclfile, reading, writing}

-- One wildcard at most, `+`.
abbrev match_rest : Text → Option Text → Bool
match_rest after none = false
match_rest after (some rest) = (span_ne b'/' rest).1 == after

abbrev match_parts : Text × Text → Text → Bool
match_parts (before, []) t = before == t
match_parts (before, plus ∷ after) t = match_rest after (strip_prefix before t)

unfoldable matches : Text → Text → Bool
matches f t = match_parts (span_ne b'+' f) t

unfoldable expand : Text → Text → Text
expand u [] = []
expand u (c ∷ []) = c ∷ []
expand u (c ∷ d ∷ t) = elim (nat_beq c b'%' && nat_beq d b'u') [
  | true ↦ u ++ expand u t
  | false ↦ c ∷ expand u (d ∷ t)
]

without_plus : (t : Text) → IsPlain t → Lacks b'+' t
without_plus [] h = tt
without_plus (c ∷ t) h = (h.0.0, without_plus t h.1)

matches_plain : (f t : Text) → IsPlain f → matches f t ≡ (f == t)
unfolding matches
matches_plain f t h = rw (span_ne_all b'+' f (without_plus f h)) refl

split_level :
    (f g : Text) → IsPlain f → span_ne b'+' (f ++ lit "/+/" ++ g) ≡ (f ++ lit "/", b'+' ∷ b'/' ∷ g)
split_level f g h =
    ap (span_ne b'+')
      (append_assoc f (lit "/+/") g ∙ sym (append_assoc f (lit "/") (b'+' ∷ b'/' ∷ g)))
    ∙ span_ne-append b'+' (f ++ lit "/") (b'/' ∷ g)
        (All-append (λ c. c ≢ b'+') f (lit "/") (without_plus f h) (omega arith))

matches_split :
    (f g t : Text)
    → IsPlain f
    → matches (f ++ lit "/+/" ++ g) t ≡ match_rest (b'/' ∷ g) (strip_prefix (f ++ lit "/") t)
unfolding matches
matches_split f g t h = rw (split_level f g h) refl

-- The topics that a filter with one wildcard is for.
abbrev IsAtLevel : Text → Text → Text → Type 0
IsAtLevel f g t = (level : Text) × Lacks b'/' level × (t ≡ f ++ (b'/' ∷ (level ++ (b'/' ∷ g))))

level_sound :
    (f g t : Text) (o : Option Text)
    → strip_prefix (f ++ lit "/") t ≡ o
    → match_rest (b'/' ∷ g) o ≡ true
    → IsAtLevel f g t
level_sound f g t none e h = cc
level_sound f g t (some rest) e h =
    let after : (span_ne b'/' rest).1 ≡ b'/' ∷ g =
      ground (arith, ==_iff (span_ne b'/' rest).1 (b'/' ∷ g)) in
    (
      (span_ne b'/' rest).0,
      span_ne-Lacks b'/' rest,
      append_of_strip_prefix (f ++ lit "/") t rest e
          ∙ append_assoc f (lit "/") rest
          ∙ ap (λ x. f ++ (b'/' ∷ x))
              (sym (append-span_ne b'/' rest) ∙ ap (λ x. (span_ne b'/' rest).0 ++ x) after),
    )

level_complete :
    (f g t : Text) → IsAtLevel f g t → match_rest (b'/' ∷ g) (strip_prefix (f ++ lit "/") t) ≡ true
level_complete f g t (level, lacks, shape) =
    let written = shape ∙ sym (append_assoc f (lit "/") (level ++ (b'/' ∷ g))) in
    let stripped =
      ap (strip_prefix (f ++ lit "/")) written
      ∙ strip_prefix-append (f ++ lit "/") (level ++ (b'/' ∷ g)) in
    rw (stripped, span_ne-append b'/' level g lacks) (==_refl (b'/' ∷ g))

expand-char : (u t : Text) (c : ℕ) → c ≢ b'%' → expand u (c ∷ t) ≡ c ∷ expand u t
unfolding expand
expand-char u [] c h = refl
expand-char u (d ∷ t) c h = ground arith

abbrev mosquitto : Mosquitto
mosquitto = record {
  matches = matches;
  expand = expand;
  allows = any_grants matches expand;
  matches_plain = matches_plain;
  matches_level = λ f g t h _.
      let split = matches_split f g t h in
      (
        λ e. level_sound f g t (strip_prefix (f ++ lit "/") t) refl (sym split ∙ e),
        λ at_level. split ∙ level_complete f g t at_level,
      );
  expand-nil = λ u. unfold expand in refl;
  expand-user = λ u t. unfold expand in refl;
  expand-char = expand-char;
  allows_lem = λ rules user request t. refl;
}

abbrev tb3 : Text
tb3 = lit "tb3_001"

tb3-IsRobotId : IsRobotId tb3
tb3-IsRobotId = record { ne-nil = ground arith; segment = omega arith }

tb3-IsPlain : IsPlain tb3
tb3-IsPlain = ground arith

tb3_may : mosquitto.allows aclfile tb3 writing (lit "robots/tb3_001/status") ≡ true
tb3_may = (both_served mosquitto tb3 tb3-IsRobotId tb3-IsPlain).0.0.0

no_impersonation_example :
    All
      (λ call. named call ≡ tb3)
      (handle_message mqtt_service (lit "robots/tb3_001/status") (encoded (str (lit "online"))))
no_impersonation_example =
    no_impersonation mosquitto tb3 (lit "robots/tb3_001/status") (encoded (str (lit "online")))
      tb3-IsRobotId tb3-IsPlain (ground arith) tb3_may

abbrev stop_topic : Text
stop_topic = lit "robots/tb3_001/cmd"

stop_parsed : parse_topic stop_topic ≡ some (tb3, lit "cmd")
unfolding parse_topic strip_prefix span_ne
stop_parsed = refl

backend_may : mosquitto.allows aclfile backend writing stop_topic ≡ true
backend_may = (both_served mosquitto tb3 tb3-IsRobotId tb3-IsPlain).1.0.1

backend_writes_example :
    (lit "cmd" ≡ lit "cmd") ⊎ (lit "cmd" ≡ lit "camera/offer") ⊎ (tb3 ≡ backend)
backend_writes_example = backend_writes mosquitto stop_topic tb3 (lit "cmd") stop_parsed backend_may

both_served_example :
    All
      (λ t.
        (mosquitto.allows aclfile tb3 writing t ≡ true)
        × (mosquitto.allows aclfile backend reading t ≡ true))
      (Topics.status_topic tb3
        ∷ Topics.telemetry_topic tb3
        ∷ Topics.health_topic tb3
        ∷ Topics.heartbeat_topic tb3
        ∷ Topics.lidar_topic tb3
        ∷ Topics.camera_answer_topic tb3
        ∷ [])
    × All
        (λ t.
          (mosquitto.allows aclfile tb3 reading t ≡ true)
          × (mosquitto.allows aclfile backend writing t ≡ true))
        (cmd_topic tb3 ∷ camera_offer_topic tb3 ∷ [])
both_served_example = both_served mosquitto tb3 tb3-IsRobotId tb3-IsPlain

reads_own_example :
    (mosquitto.allows aclfile tb3 reading stop_topic ≡ true)
    ↔ ((stop_topic ≡ Topics.cmd_topic tb3) ⊎ (stop_topic ≡ Topics.camera_offer_topic tb3))
reads_own_example = reads_own mosquitto tb3 stop_topic tb3-IsPlain (ground arith)

backend-IsRobotId : IsRobotId backend
backend-IsRobotId = record { ne-nil = ground arith; segment = omega arith }

commanded_by_backend_example : backend ≡ backend
commanded_by_backend_example =
    commanded_by_backend mosquitto backend tb3 backend-IsRobotId (ground arith) tb3-IsRobotId
      backend_may
