-- ===== src/Broker/Commanding.antt =====
-- Who the broker lets command a robot (cloud-container/mosquitto/aclfile).
use cloud_robotics.Prelude.{
  Text, lit, ◌==◌, ==_iff, ==_apart, Bool-cases, inl, inr, some, ◌≡◌, ◌≢◌, sym, ◌∙◌, true, arith,
}
use cloud_robotics.Backend.Topics.{parse_topic}
use cloud_robotics.Backend.Topics.Parsing.{IsRobotId, read_back}
use cloud_robotics.Robot.Topics.{cmd_topic}
use cloud_robotics.Broker.{IsPlain, writing, Mosquitto, backend, backend_lines, patterns, aclfile}
use cloud_robotics.Broker.Isolation.{others, patterns-own}

same_suffix :
    (t : Text) {q s q' s' : Text}
    → parse_topic t ≡ some (q, s)
    → parse_topic t ≡ some (q', s')
    → s ≡ s'
same_suffix t e e' = cc

module _ (m : Mosquitto) where
  no_command :
      (u r : Text)
      → IsRobotId u
      → IsPlain u
      → IsRobotId r
      → u ≢ backend
      → m.allows aclfile u writing (cmd_topic r) ≢ true
  unfolding aclfile
  no_command u r id plain id' ne e =
      let granted =
        sym (others m backend u (cmd_topic r) writing backend_lines patterns ne)
        ∙ sym (m.allows_lem aclfile u writing (cmd_topic r))
        ∙ e in
      let (suffix, parsed, other) = patterns-own m u (cmd_topic r) id plain granted in
      let command = read_back r (lit "cmd") id' (ground arith) (omega arith) in
      absurd (other (same_suffix (cmd_topic r) parsed command))

  -- A client that may publish on the topic from which a robot takes its commands is the backend: no
  -- robot commands another one, nor itself. This is for a user name that is not empty and has no
  -- slash and no wildcard, and a robot id that is not empty and has no slash.
  pub commanded_by_backend :
      (u r : Text)
      → IsRobotId u
      → IsPlain u
      → IsRobotId r
      → m.allows aclfile u writing (cmd_topic r) ≡ true
      → u ≡ backend
  commanded_by_backend u r id plain id' e = elim (Bool-cases (u == backend)) [
    | inl same ↦ (==_iff u backend).0 same
    | inr other ↦ absurd (no_command u r id plain id' (==_apart u backend other) e)
  ]
