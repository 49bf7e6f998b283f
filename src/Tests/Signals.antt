-- ===== src/Tests/Signals.antt =====
-- The theorems on topics, on the relay and on what arrives at the backend, at concrete messages.
use mathlib.Core.Option
use cloud_robotics.Prelude.{
  Text, lit, ◌==◌, ◌≡◌, refl, ◌≢◌, ◌↔◌, Option, none, some, List, [], ◌∷◌, ◌++◌, arith,
}
use cloud_robotics.Prelude.Int.{pos}
use cloud_robotics.Json.{Json, str, object, find, encoded}
use cloud_robotics.Exec.{Result, ok}
use cloud_robotics.Services.Memory.{memory}
use cloud_robotics.Backend.World.{Packet}
use cloud_robotics.Backend.Topics.{parse_topic}
use cloud_robotics.Backend.Topics.Parsing.{IsTopic, parse_topic_iff}
use cloud_robotics.Backend.Registry.{online, get_robot}
use cloud_robotics.Backend.Registry.Recorded.{status_text, summary_of}
use cloud_robotics.Backend.Mqtt.{signal_payload}
use cloud_robotics.Backend.Relay.{Relay, resolved, offer, resume, future_of, pop}
use cloud_robotics.Backend.Relay.Correlation.{relay_offer_lem}
use cloud_robotics.Backend.Relay.Events.{Event, answered, expired, steps}
use cloud_robotics.Backend.Relay.Correlation.Cleanup.{resume_cleans_up}
use cloud_robotics.Backend.Main.{receive}
use cloud_robotics.Backend.Main.Arrivals.{status_arrives, offer_answered}
use cloud_robotics.Robot.Topics.{camera_offer_topic}
use cloud_robotics.Robot.Agent.{Agent, new_agent, publish, publish_status}
use cloud_robotics.Robot.Agent.Messages.{handle_camera_offer}
use cloud_robotics.Tests.Worlds.{idle, r1-IsRobotId}

parse_topic_iff_example :
    (parse_topic (lit "robots/r1/camera/answer") ≡ some (lit "r1", lit "camera/answer"))
    ↔ IsTopic (lit "robots/r1/camera/answer") (lit "r1") (lit "camera/answer")
parse_topic_iff_example =
    parse_topic_iff (lit "robots/r1/camera/answer") (lit "r1") (lit "camera/answer")

abbrev no_offers : Relay
no_offers = record { pending = []; published = []; drawn = 0 }

-- An answer that names no request, the timer, and the answer before the coroutine wakes.
abbrev events : List Event
events =
    answered (object ((lit "sdp", str (lit "v=1")) ∷ []))
    ∷ expired (lit "u")
    ∷ answered (signal_payload (lit "u") (str (lit "v=0")))
    ∷ []

relay_offer_lem_example :
    Option.map
      (λ (r : Result Json × Relay). r.0)
      (resume
        (lit "r1")
        (lit "u")
        (steps memory events (offer memory (lit "r1") (lit "o") no_offers).1))
    ≡ some (ok (str (lit "v=0")))
unfolding ◌==◌ find
relay_offer_lem_example =
    relay_offer_lem memory (lit "r1") (lit "o") no_offers events (refl, (refl, (refl, tt)))

-- The relay when the answer has come.
abbrev answered_relay : Relay
answered_relay = record {
  pending = (lit "u", resolved (str (lit "v=0"))) ∷ [];
  published = [];
  drawn = 1;
}

resume_cleans_up_example :
    future_of
      (lit "u")
      (steps memory events (record { pending = []; published = []; drawn = 1 })).pending
    ≡ none
unfolding ◌==◌ resume future_of pop
resume_cleans_up_example =
    resume_cleans_up memory 0 (lit "r1") answered_relay
      (record { pending = []; published = []; drawn = 1 }) (ok (str (lit "v=0"))) events
      (omega arith) refl

abbrev agent : Agent
agent = new_agent (lit "r1") (record { linear_speed = pos 200; angular_speed = pos 1000 }) 0

status_arrives_example :
    (p : Packet) × ((publish_status (status_text online) (pos 8) agent).mqtt
      ≡ agent.mqtt ++ publish p ∷ [])
    × let w' = (receive memory p.topic (encoded p.payload) (idle, no_offers)).0 in
      (get_robot memory (lit "r1") w'
        ≡ (ok (some (summary_of memory idle (lit "r1") online (pos 8) none)), w'))
status_arrives_example =
    status_arrives memory online (pos 8) agent none idle no_offers r1-IsRobotId refl refl refl

abbrev streamer : Json → Option Text
streamer _ = some (lit "v=0")

offer_sdp-ne-nil : lit "o" ≢ []
offer_sdp-ne-nil e = ground arith

offer_answered_example :
    let (i, s') = offer memory (lit "r1") (lit "o") no_offers in
    (q : Packet) × (s'.published ≡ q ∷ [])
    × (q.topic ≡ camera_offer_topic (lit "r1"))
    × (p : Packet) × ((handle_camera_offer streamer q.payload agent).mqtt
        ≡ agent.mqtt ++ publish p ∷ [])
    × (Option.map
          (λ (r : Result Json × Relay). r.0)
          (resume (lit "r1") i (receive memory p.topic (encoded p.payload) (idle, s')).1)
        ≡ some (ok (str (lit "v=0"))))
offer_answered_example =
    offer_answered memory streamer (lit "o") (lit "v=0") agent idle no_offers r1-IsRobotId
      offer_sdp-ne-nil refl
