-- ===== src/Broker/Writing.antt =====
-- What the broker lets the backend publish (cloud-container/mosquitto/aclfile).
use cloud_robotics.Prelude.{
  Text, lit, ◌++◌, true, Bool-cases, inl, inr, none, some, [], ◌∷◌, ◌≡◌, ◌⊎◌, refl, sym, ap, ◌∙◌,
  ◌≢◌, arith,
}
use cloud_robotics.Backend.Topics.{parse_topic, strip_prefix, span_ne}
use cloud_robotics.Backend.Topics.Parsing.{Lacks, IsRobotId, read_back}
use cloud_robotics.Broker.{
  topic, Access, write, readwrite, writing, IsPlain, grants, any_grants, Mosquitto, backend,
  backend_lines, patterns, under, aclfile,
}
use cloud_robotics.Broker.Isolation.{any_grants-append, by_line, patterns-own}

no_robot : (suffix : Text) → parse_topic (lit "robots//" ++ suffix) ≡ none
unfolding parse_topic strip_prefix span_ne
no_robot suffix = refl

backend-IsRobotId : IsRobotId backend
backend-IsRobotId = record { ne-nil = ground arith; segment = omega arith }

named_twice :
    (t r s r' s' : Text) → parse_topic t ≡ some (r, s) → parse_topic t ≡ some (r', s') → r ≡ r'
named_twice t r s r' s' e e' = cc

module _ (m : Mosquitto) where
  -- The suffix of a topic that a filter of all robots matches.
  matched :
      (t r s suffix : Text)
      → suffix ≢ []
      → Lacks 10 suffix
      → IsPlain suffix
      → parse_topic t ≡ some (r, s)
      → m.matches (lit "robots/+/" ++ suffix) t ≡ true
      → s ≡ suffix
  matched t r s suffix ne line plain parsed e =
      let (level, segment, shape) =
        (m.matches_level (lit "robots") suffix t (ground arith) plain).0 e in
      go level segment shape
    where
      go :
          (level : Text)
          → Lacks b'/' level
          → t ≡ lit "robots" ++ (b'/' ∷ (level ++ (b'/' ∷ suffix)))
          → s ≡ suffix
      go [] segment shape =
          let none_parsed : parse_topic t ≡ none = ap parse_topic shape ∙ no_robot suffix in
          ground (arith, none_parsed)
      go (c ∷ level) segment shape =
          let id : IsRobotId (c ∷ level) = record { ne-nil = ground arith; segment = segment } in
          ground (arith, read_back (c ∷ level) suffix id ne line)

  writing_all :
      (t r s suffix : Text) (access : Access)
      → suffix ≢ []
      → Lacks 10 suffix
      → IsPlain suffix
      → parse_topic t ≡ some (r, s)
      → grants m.matches m.expand
          (topic backend access (lit "robots/+/" ++ suffix))
          backend
          writing
          t
        ≡ true
      → s ≡ suffix
  writing_all t r s suffix access ne line plain parsed e =
      matched t r s suffix ne line plain parsed (ground arith)

  -- What the backend may publish on a topic of a robot: a command or an offer, and nothing that the
  -- robots report, unless the robot has the backend's own name.
  pub backend_writes :
      (t r s : Text)
      → parse_topic t ≡ some (r, s)
      → m.allows aclfile backend writing t ≡ true
      → (s ≡ lit "cmd") ⊎ (s ≡ lit "camera/offer") ⊎ (r ≡ backend)
  unfolding aclfile
  backend_writes t r s parsed e =
      let lines = under backend backend_lines in
      let granted =
        sym (any_grants-append m lines patterns backend writing t)
        ∙ sym (m.allows_lem aclfile backend writing t)
        ∙ e in
      elim (Bool-cases (any_grants m.matches m.expand lines backend writing t)) [
        | inl own ↦
            by_line m lines backend writing t
              (
                λ h. inl (
                    writing_all t r s (lit "cmd") readwrite (ground arith) (omega arith)
                      (ground arith) parsed h),
                (
                  λ h. ground arith,
                  (
                    λ h. ground arith,
                    (
                      λ h. ground arith,
                      (
                        λ h. inr (
                            inl (
                              writing_all t r s (lit "camera/offer") write (ground arith)
                                (omega arith) (ground arith) parsed h)),
                        (λ h. ground arith, (λ h. ground arith, (λ h. ground arith, tt))),
                      ),
                    ),
                  ),
                ),
              )
              own
        | inr other ↦
            let (suffix, same, _) : (suffix : Text) × (parse_topic t ≡ some (backend, suffix))
                × (suffix ≢ lit "cmd") =
              patterns-own m backend t backend-IsRobotId (ground arith) (ground arith) in
            inr (inr (named_twice t r s backend suffix parsed same))
      ]
