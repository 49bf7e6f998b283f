-- ===== src/Broker/Reading.antt =====
-- What the broker sends to a robot (cloud-container/mosquitto/aclfile).
use cloud_robotics.Prelude.{
  Text, lit, sym, ap, ◌∙◌, ◌++◌, ◌∷◌, ◌==◌, refl, All, ◌≡◌, ◌≢◌, ◌⊎◌, ◌↔◌, inl, inr, true, arith,
}
use cloud_robotics.Robot.Topics.{cmd_topic, camera_offer_topic}
use cloud_robotics.Broker.{
  IsPlain, read, reading, Mosquitto, backend, backend_lines, patterns, aclfile,
}
use cloud_robotics.Broker.Isolation.{by_line, own, others}
use cloud_robotics.Broker.Serving.{has_pattern, robot_may}

module _ (m : Mosquitto) where
  only_own :
      (u t : Text)
      → IsPlain u
      → u ≢ backend
      → m.allows aclfile u reading t ≡ true
      → (t ≡ cmd_topic u) ⊎ (t ≡ camera_offer_topic u)
  unfolding aclfile
  only_own u t plain ne e =
      let granted =
        sym (others m backend u t reading backend_lines patterns ne)
        ∙ sym (m.allows_lem aclfile u reading t)
        ∙ e in
      by_line m {P = (t ≡ cmd_topic u) ⊎ (t ≡ camera_offer_topic u)} patterns u reading t
        (
          λ h. inl (own m u t (lit "cmd") read reading plain (ground arith) (omega arith) h),
          (
            λ h. cc,
            (
              λ h. cc,
              (
                λ h. cc,
                (
                  λ h. inr (
                      own m u t (lit "camera/offer") read reading plain (ground arith) (omega arith)
                        h),
                  (λ h. cc, (λ h. cc, (λ h. cc, tt))),
                ),
              ),
            ),
          ),
        )
        granted

  -- A client that is not the backend, of a user name without a wildcard, may be sent its own commands
  -- and camera offers, and no message of another topic: neither another robot's commands and offers
  -- nor what robots report.
  pub reads_own :
      (u t : Text)
      → IsPlain u
      → u ≢ backend
      → (m.allows aclfile u reading t ≡ true) ↔ ((t ≡ cmd_topic u) ⊎ (t ≡ camera_offer_topic u))
  unfolding ◌==◌
  reads_own u t plain ne = (only_own u t plain ne, own_allowed)
    where
      may :
          (suffix : Text)
          → has_pattern reading suffix patterns ≡ true
          → IsPlain suffix
          → All (λ c. c ≢ b'%') suffix
          → m.allows aclfile u reading (lit "robots/" ++ (u ++ (b'/' ∷ suffix))) ≡ true
      may suffix listed = robot_may m u suffix reading listed plain

      own_allowed :
          (t ≡ cmd_topic u) ⊎ (t ≡ camera_offer_topic u) → m.allows aclfile u reading t ≡ true
      own_allowed (inl e) =
          ap (λ s. m.allows aclfile u reading s) e
          ∙ may (lit "cmd") refl (ground arith) (omega arith)
      own_allowed (inr e) =
          ap (λ s. m.allows aclfile u reading s) e
          ∙ may (lit "camera/offer") refl (ground arith) (omega arith)
