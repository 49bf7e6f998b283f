-- ===== src/Broker/Serving.antt =====
-- That the broker lets each side do what its program does (cloud-container/mosquitto/aclfile).
use cloud_robotics.Prelude.{
  Text, lit, ◌++◌, ◌==◌, ==_iff, ==_refl, Bool, true, false, ◌&&◌, ◌||◌, List, [], ◌∷◌, ◌≡◌, refl,
  ◌≢◌, All, arith,
}
use cloud_robotics.Backend.Topics.{cmd_topic, camera_offer_topic}
use cloud_robotics.Backend.Topics.Parsing.{IsRobotId}
use cloud_robotics.Robot.Topics
use cloud_robotics.Broker.{
  Rule, topic, pattern, Access, Request, reading, writing, includes, IsPlain, any_grants, Mosquitto,
  backend, backend_lines, patterns, under, aclfile,
}
use cloud_robotics.Broker.Isolation.{any_grants-append, expand_pattern, topic-IsPlain}

abbrev pub has_pattern : Request → Text → List Rule → Bool
has_pattern request suffix [] = false
has_pattern request suffix (topic user access filter ∷ rules) = has_pattern request suffix rules
has_pattern request suffix (pattern access filter ∷ rules) =
    includes access request && filter == lit "robots/%u/" ++ suffix
    || has_pattern request suffix rules

abbrev has_line : Request → Text → List (Access × Text) → Bool
has_line request suffix [] = false
has_line request suffix ((access, filter) ∷ lines) =
    includes access request && filter == lit "robots/+/" ++ suffix || has_line request suffix lines

module _ (m : Mosquitto) where
  matches_all :
      (r suffix : Text)
      → IsRobotId r
      → IsPlain suffix
      → m.matches (lit "robots/+/" ++ suffix) (lit "robots/" ++ (r ++ (b'/' ∷ suffix))) ≡ true
  matches_all r suffix id plain =
      (m.matches_level (lit "robots") suffix (lit "robots/" ++ (r ++ (b'/' ∷ suffix)))
          (ground arith) plain).1
        (r, id.segment, refl)

  matches_own :
      (r suffix : Text)
      → IsPlain r
      → IsPlain suffix
      → All (λ c. c ≢ b'%') suffix
      → m.matches
          (m.expand r (lit "robots/%u/" ++ suffix))
          (lit "robots/" ++ (r ++ (b'/' ∷ suffix)))
        ≡ true
  matches_own r suffix plain plain' literal =
      let own = lit "robots/" ++ (r ++ (b'/' ∷ suffix)) in
      rw
        (
          expand_pattern m r suffix literal,
          m.matches_plain own own (topic-IsPlain r suffix plain plain'),
        )
        (==_refl own)

  listed_grants :
      (u suffix t : Text) (request : Request) (rules : List Rule)
      → has_pattern request suffix rules ≡ true
      → m.matches (m.expand u (lit "robots/%u/" ++ suffix)) t ≡ true
      → any_grants m.matches m.expand rules u request t ≡ true
  listed_grants u suffix t request [] h e = cc
  listed_grants u suffix t request (topic who access f ∷ rules) h e =
      ground (arith, listed_grants u suffix t request rules h e)
  listed_grants u suffix t request (pattern access f ∷ rules) h e = ground (
    arith,
    ==_iff f (lit "robots/%u/" ++ suffix),
    λ (k : has_pattern request suffix rules ≡ true). listed_grants u suffix t request rules k e,
  )

  line_grants :
      (suffix t : Text) (request : Request) (lines : List (Access × Text))
      → has_line request suffix lines ≡ true
      → m.matches (lit "robots/+/" ++ suffix) t ≡ true
      → any_grants m.matches m.expand (under backend lines) backend request t ≡ true
  line_grants suffix t request [] h e = cc
  line_grants suffix t request ((access, f) ∷ lines) h e = ground (
    arith,
    ==_refl backend,
    ==_iff f (lit "robots/+/" ++ suffix),
    λ (k : has_line request suffix lines ≡ true). line_grants suffix t request lines k e,
  )

  pub robot_may :
      (r suffix : Text) (request : Request)
      → has_pattern request suffix patterns ≡ true
      → IsPlain r
      → IsPlain suffix
      → All (λ c. c ≢ b'%') suffix
      → m.allows aclfile r request (lit "robots/" ++ (r ++ (b'/' ∷ suffix))) ≡ true
  unfolding aclfile
  robot_may r suffix request h plain plain' literal =
      let t = lit "robots/" ++ (r ++ (b'/' ∷ suffix)) in
      let lines = under backend backend_lines in
      let e = matches_own r suffix plain plain' literal in
      ground (
        arith,
        m.allows_lem (lines ++ patterns) r request t,
        any_grants-append m lines patterns r request t,
        listed_grants r suffix t request patterns h e,
      )

  backend_may :
      (r suffix : Text) (request : Request)
      → has_line request suffix backend_lines ≡ true
      → IsRobotId r
      → IsPlain suffix
      → m.allows aclfile backend request (lit "robots/" ++ (r ++ (b'/' ∷ suffix))) ≡ true
  unfolding aclfile
  backend_may r suffix request h id plain =
      let t = lit "robots/" ++ (r ++ (b'/' ∷ suffix)) in
      let lines = under backend backend_lines in
      let e = matches_all r suffix id plain in
      ground (
        arith,
        m.allows_lem (lines ++ patterns) backend request t,
        any_grants-append m lines patterns backend request t,
        line_grants suffix t request backend_lines h e,
      )

  served :
      (r suffix : Text) (own other : Request)
      → has_pattern own suffix patterns ≡ true
      → has_line other suffix backend_lines ≡ true
      → IsRobotId r
      → IsPlain r
      → IsPlain suffix
      → All (λ c. c ≢ b'%') suffix
      → let t = lit "robots/" ++ (r ++ (b'/' ∷ suffix)) in
        (m.allows aclfile r own t ≡ true) × (m.allows aclfile backend other t ≡ true)
  served r suffix own other listed lined id plain plain' literal = (
    robot_may r suffix own listed plain plain' literal,
    backend_may r suffix other lined id plain',
  )

  -- A robot may publish what it reports and be sent commands and offers, and the backend the
  -- converse, on the topic names of either program, for a robot id without a slash or a wildcard.
  pub both_served :
      (r : Text)
      → IsRobotId r
      → IsPlain r
      → All
          (λ t. (m.allows aclfile r writing t ≡ true) × (m.allows aclfile backend reading t ≡ true))
          (Topics.status_topic r
            ∷ Topics.telemetry_topic r
            ∷ Topics.health_topic r
            ∷ Topics.heartbeat_topic r
            ∷ Topics.lidar_topic r
            ∷ Topics.camera_answer_topic r
            ∷ [])
        × All
            (λ t.
              (m.allows aclfile r reading t ≡ true) × (m.allows aclfile backend writing t ≡ true))
            (cmd_topic r ∷ camera_offer_topic r ∷ [])
  unfolding ◌==◌
  both_served r id plain = (
    (
      served r (lit "status") writing reading refl refl id plain (ground arith) (omega arith),
      (
        served r (lit "telemetry") writing reading refl refl id plain (ground arith) (omega arith),
        (
          served r (lit "health") writing reading refl refl id plain (ground arith) (omega arith),
          (
            served r (lit "heartbeat") writing reading refl refl id plain (ground arith)
                (omega arith),
            (
              served r (lit "lidar") writing reading refl refl id plain (ground arith)
                  (omega arith),
              (
                served r (lit "camera/answer") writing reading refl refl id plain (ground arith)
                    (omega arith),
                tt,
              ),
            ),
          ),
        ),
      ),
    ),
    (
      served r (lit "cmd") reading writing refl refl id plain (ground arith) (omega arith),
      (
        served r (lit "camera/offer") reading writing refl refl id plain (ground arith)
            (omega arith),
        tt,
      ),
    ),
  )
