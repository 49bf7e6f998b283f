-- ===== src/Backend/Fleet/Commands.antt =====
-- Who can command a robot through cloud-container/backend/app/fleet/manager.py.
pub mod Senders
use cloud_robotics.Prelude.{
  ℕ, ◌<◌, Text, ◌++◌, ◌≡◌, refl, ap, ◌≢◌, ◌∙◌, ◌⊎◌, inl, inr, false, Option, none, some, [], ◌∷◌,
  arith,
}
use cloud_robotics.Exec.{Result, is_ok, ok, err, Error, robot_not_found, session_conflict}
use cloud_robotics.Services.{Services, Lock}
use cloud_robotics.Backend.World.{World, Packet}
use cloud_robotics.Backend.Models.{Command, command_text, forward, backward, left, right, stop}
use cloud_robotics.Backend.Topics.{cmd_topic}
use cloud_robotics.Backend.Mqtt.{publish_command, command_payload}
use cloud_robotics.Backend.Sessions
use cloud_robotics.Backend.Sessions.{
  key, not_control_holder, already_controlled, not_active_holder, get_holder, require_holder, renew,
}
use cloud_robotics.Backend.Sessions.Holding.{
  Free, Holds, Takes, refused_to_others, refused_if_Free, renew_held, renewed, renewed-Takes,
  require_holder_held, require_holder_cases, published-renew,
}
use cloud_robotics.Backend.Registry
use cloud_robotics.Backend.Registry.{RobotSummary}
use cloud_robotics.Backend.Registry.Listing.{HasBadStatus, get_robot_pure, get_robot-bad}
use cloud_robotics.Backend.Fleet.{
  require_known, hold_session, authorise, send_command, acquire_session, release_session, get_robot,
}

-- The message that a command is sent as.
abbrev pub command_packet : (σ : Services) → World σ → Text → Command → Packet
command_packet σ w r c = record {
  topic = cmd_topic r;
  payload = command_payload σ (command_text c) (σ.isoformat w.now);
  qos = 1;
  retain = false;
}

module _ (σ : Services) where
  -- The registry answers for the robot.
  pub record IsKnown (w : World σ) (r : Text) : Type 0 where
    pub summary : RobotSummary
    pub answered : Registry.get_robot σ r w ≡ (ok (some summary), w)

  require_known_ok : (w : World σ) (r : Text) → IsKnown w r → require_known σ r w ≡ (ok tt, w)
  unfolding require_known
  require_known_ok w r k = ground (arith, k.answered)

  -- A robot that is known: any operator's stop is sent, whoever holds the session, and nothing but
  -- the message is written.
  pub stop_override :
      (ttl : ℕ) (w : World σ) (r o : Text)
      → IsKnown w r
      → send_command σ ttl r o stop w
        ≡ (ok tt, record w { published = w.published ++ command_packet σ w r stop ∷ [] })
  unfolding send_command publish_command
  stop_override ttl w r o k = ground (arith, require_known_ok w r k)

  -- No robot of that id: each operation raises RobotNotFoundError and changes nothing.
  pub unknown_robot :
      (ttl : ℕ) (w : World σ) (r o : Text) (c : Command)
      → σ.pg.robot_row w.pg r ≡ none
      → (send_command σ ttl r o c w ≡ (err (robot_not_found r), w))
        × (acquire_session σ ttl r o w ≡ (err (robot_not_found r), w))
        × (release_session σ r o w ≡ (err (robot_not_found r), w))
        × (get_robot σ r w ≡ (err (robot_not_found r), w))
  unfolding send_command acquire_session release_session get_robot Registry.get_robot
  unknown_robot ttl w r o c h = (ground arith, ground arith, ground arith, ground arith)

  -- Without the session, because nobody or another operator holds it, every command but stop raises
  -- a conflict; nothing is sent and nothing changes.
  pub refused_without_session :
      (ttl : ℕ) (w : World σ) (r o : Text) (c : Command)
      → IsKnown w r
      → Free σ w r ⊎ ((l : Lock) × (t : ℕ) × Holds σ w r l t × (l.operator ≢ o))
      → c ≢ stop
      → send_command σ ttl r o c w ≡ (err (session_conflict (not_control_holder o r)), w)
  unfolding send_command
  refused_without_session ttl w r o c k out n =
      ground (arith, require_known_ok w r k, refused out, n)
    where
      refused :
          Free σ w r ⊎ ((l : Lock) × (t : ℕ) × Holds σ w r l t × (l.operator ≢ o))
          → require_holder σ r o w ≡ (err (session_conflict (not_control_holder o r)), w)
      refused (inl free) = (refused_if_Free σ ttl w r o free).2
      refused (inr (l, t, h, ne)) = (refused_to_others σ ttl w r o l t h ne).3

  -- The holder's command is sent to the robot's topic and its session has `ttl` seconds again; the
  -- other keys, Postgres and the clock are as they were.
  pub holder_commands :
      (ttl : ℕ) (w : World σ) (r : Text) (l : Lock) (t : ℕ) (c : Command)
      → 0 < ttl
      → IsKnown w r
      → Holds σ w r l t
      → c ≢ stop
      → let (res, w') = send_command σ ttl r l.operator c w in
        (res ≡ ok tt)
        × (w'.published ≡ w.published ++ command_packet σ w r c ∷ [])
        × Takes σ w w' r l ttl
        × (w'.pg ≡ w.pg)
        × (w'.now ≡ w.now)
  holder_commands ttl w r l t c pos k h n = rw (sent-eq) (
    refl,
    refl,
    record {
      held = (renewed-Takes σ ttl w r l t pos h).held;
      others = (renewed-Takes σ ttl w r l t pos h).others;
    },
    refl,
    refl,
  )
    where
      sent-eq : send_command σ ttl r l.operator c w ≡ (
        ok tt,
        record (renewed σ ttl w r) { published = w.published ++ command_packet σ w r c ∷ [] },
      )
      sent-eq =
          unfold send_command publish_command in
          ground (
            arith,
            require_known_ok w r k,
            require_holder_held σ w r l t h,
            renew_held σ ttl w r l t h,
            n,
          )

  pub require_known_cases :
      (w : World σ) (r : Text)
      → (IsKnown w r × (require_known σ r w ≡ (ok tt, w)))
        ⊎ ((x : Error) × (require_known σ r w ≡ (err x, w)))
  unfolding require_known
  require_known_cases w r = go (Registry.get_robot σ r w) refl (get_robot_pure σ r w)
    where
      go :
          (p : Result (Option RobotSummary) × World σ)
          → Registry.get_robot σ r w ≡ p
          → (Registry.get_robot σ r w).1 ≡ w
          → (IsKnown w r × (require_known σ r w ≡ (ok tt, w)))
            ⊎ ((x : Error) × (require_known σ r w ≡ (err x, w)))
      go (ok none, w') e q = inr (robot_not_found r, ground arith)
      go (ok (some s), w') e q = inl (record { summary = s; answered = ground arith }, ground arith)
      go (err x, w') e q = inr (x, ground arith)

  -- A stored status that is none of the literals blocks every command to the robot, the stop too: the
  -- look-up that only asks whether the robot exists validates its whole summary. Nothing is written.
  pub bad_status_blocks_stop :
      (ttl : ℕ) (w : World σ) (r o : Text) (c : Command)
      → HasBadStatus σ w r
      → let (res, w') = send_command σ ttl r o c w in (is_ok res ≡ false) × (w' ≡ w)
  unfolding send_command
  bad_status_blocks_stop ttl w r o c bad = elim (require_known_cases w r) [
    | inl (k, e) ↦ absurd (
        get_robot-bad σ r w k.summary bad
          (ap (λ (p : Result (Option RobotSummary) × World σ). p.0) k.answered))
    | inr (x, e) ↦ (ground (arith, e), ground (arith, e))
  ]

  -- Of a known robot, release_session is the session manager's release.
  pub release_session_known :
      (w : World σ) (r o : Text) → IsKnown w r → release_session σ r o w ≡ Sessions.release σ r o w
  unfolding release_session
  release_session_known w r o k = ground (arith, require_known_ok w r k)

  -- Of a known robot that another operator holds, acquire_session and release_session raise a conflict.
  pub sessions_of_others :
      (ttl : ℕ) (w : World σ) (r o : Text) (l : Lock) (t : ℕ)
      → IsKnown w r
      → Holds σ w r l t
      → l.operator ≢ o
      → (acquire_session σ ttl r o w ≡ (err (session_conflict (already_controlled r)), w))
        × (release_session σ r o w ≡ (err (session_conflict (not_active_holder o r)), w))
  unfolding acquire_session release_session
  sessions_of_others ttl w r o l t k h ne =
      let (a, _, c, _) = refused_to_others σ ttl w r o l t h ne in
      (ground (arith, require_known_ok w r k, a), ground (arith, require_known_ok w r k, c))
