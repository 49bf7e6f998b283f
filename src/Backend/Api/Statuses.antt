-- ===== src/Backend/Api/Statuses.antt =====
-- The HTTP statuses of cloud-container/backend/app/api/robots.py.
use cloud_robotics.Prelude.{ℕ, ◌<◌, Text, ◌≡◌, ◌≢◌, none, inr, arith}
use cloud_robotics.Services.{Services, Lock}
use cloud_robotics.Backend.World.{World}
use cloud_robotics.Backend.Models.{Command, stop}
use cloud_robotics.Backend.Sessions.{not_control_holder, already_controlled, not_active_holder}
use cloud_robotics.Backend.Sessions.Holding.{Holds}
use cloud_robotics.Backend.Fleet.Commands.{
  IsKnown, stop_override, unknown_robot, refused_without_session, holder_commands,
  sessions_of_others,
}
use cloud_robotics.Backend.Api.{
  success, failure, unknown_detail, get_robot, acquire_session, release_session, send_control,
  emergency_stop, answered, relay_webrtc_offer,
}
use cloud_robotics.Backend.Relay.{Relay}

module _ (σ : Services) where
  -- Of a known robot that an operator holds: a driving command of the holder is a 202, one of another
  -- operator a 403, the emergency stop of either a 202, and another operator's attempt to acquire or
  -- to release the session a 409.
  pub held_robot_statuses :
      (ttl : ℕ) (w : World σ) (r o : Text) (l : Lock) (t : ℕ) (c : Command)
      → 0 < ttl
      → IsKnown σ w r
      → Holds σ w r l t
      → l.operator ≢ o
      → c ≢ stop
      → ((send_control σ ttl r l.operator c w).0 ≡ success 202 tt)
        × ((send_control σ ttl r o c w).0 ≡ failure 403 (not_control_holder o r))
        × ((emergency_stop σ ttl r o w).0 ≡ success 202 tt)
        × ((emergency_stop σ ttl r l.operator w).0 ≡ success 202 tt)
        × ((acquire_session σ ttl r o w).0 ≡ failure 409 (already_controlled r))
        × ((release_session σ r o w).0 ≡ failure 409 (not_active_holder o r))
  unfolding send_control emergency_stop acquire_session release_session
  held_robot_statuses ttl w r o l t c pos k h ne n = (
    ground (arith, (holder_commands σ ttl w r l t c pos k h n).0),
    ground (arith, refused_without_session σ ttl w r o c k (inr (l, t, h, ne)) n),
    ground (arith, stop_override σ ttl w r o k),
    ground (arith, stop_override σ ttl w r l.operator k),
    ground (arith, (sessions_of_others σ ttl w r o l t k h ne).0),
    ground (arith, (sessions_of_others σ ttl w r o l t k h ne).1),
  )

  -- Of a robot that was never seen, every endpoint answers 404, the WebRTC offer's too, and that one has
  -- asked the robot nothing.
  pub unknown_robot_statuses :
      (ttl : ℕ) (w : World σ) (s : Relay) (r o sdp : Text) (c : Command)
      → σ.pg.robot_row w.pg r ≡ none
      → ((send_control σ ttl r o c w).0 ≡ failure 404 (unknown_detail r))
        × ((emergency_stop σ ttl r o w).0 ≡ failure 404 (unknown_detail r))
        × ((acquire_session σ ttl r o w).0 ≡ failure 404 (unknown_detail r))
        × ((release_session σ r o w).0 ≡ failure 404 (unknown_detail r))
        × ((get_robot σ r w).0 ≡ failure 404 (unknown_detail r))
        × (relay_webrtc_offer σ r sdp (w, s) ≡ (answered (failure 404 (unknown_detail r)), (w, s)))
  unfolding send_control emergency_stop acquire_session release_session get_robot relay_webrtc_offer
  unknown_robot_statuses ttl w s r o sdp c h = (
    ground (arith, (unknown_robot σ ttl w r o c h).0),
    ground (arith, (unknown_robot σ ttl w r o stop h).0),
    ground (arith, (unknown_robot σ ttl w r o c h).1),
    ground (arith, (unknown_robot σ ttl w r o c h).2),
    ground (arith, (unknown_robot σ ttl w r o c h).3),
    ground (arith, (unknown_robot σ ttl w r o c h).3),
  )
