-- ===== src/Backend/Api.antt =====
-- cloud-container/backend/app/api/robots.py and webrtc.py: the handlers over the fleet manager, and
-- the HTTP status of each exception. An exception that no handler catches is a 500.
pub mod Statuses
use cloud_robotics.Prelude.{ℕ, Text, lit, ◌++◌, List}
use cloud_robotics.Json.{Json, str}
use cloud_robotics.Backend.Relay.{Relay, offer}
use cloud_robotics.Exec.{
  validation_error, Exec, Result, ok, err, Error, robot_not_found, session_conflict, relay_timeout,
}
use cloud_robotics.Services.{Services}
use cloud_robotics.Backend.World.{World}
use cloud_robotics.Backend.Models.{Command, stop}
use cloud_robotics.Backend.Sessions.{SessionInfo}
use cloud_robotics.Backend.Registry.{RobotSummary}
use cloud_robotics.Backend.Fleet
use cloud_robotics.Backend.Fleet.{RobotDetail}

pub data Response (A : Type 0) : Type 0 where
  success : ℕ → A → Response A
  failure : ℕ → Text → Response A
  internal_error : Error → Response A

-- f"Unknown robot '{robot_id}'"
abbrev pub unknown_detail : Text → Text
unknown_detail robot_id = lit "Unknown robot '" ++ (robot_id ++ lit "'")

-- The handlers of `except RobotNotFoundError` and, with a status, `except SessionConflictError`.
abbrev not_found_only : Text → Error → {A : Type 0} → Response A
not_found_only robot_id (robot_not_found _) = failure 404 (unknown_detail robot_id)
not_found_only robot_id e = internal_error e

abbrev or_conflict : ℕ → Text → Error → {A : Type 0} → Response A
or_conflict status robot_id (session_conflict m) = failure status m
or_conflict status robot_id e = not_found_only robot_id e

abbrev respond : {S A : Type 0} → ℕ → (Error → Response A) → Exec S A → S → Response A × S
respond status handler m s =
    let (r, s') = m s in elim r [ ok a ↦ (success status a, s') | err e ↦ (handler e, s') ]

-- api/webrtc.py: the end of `relay_webrtc_offer`, whose response validates the SDP as a text.
abbrev pub webrtc_answer : Result Json → Response Text
webrtc_answer (ok (str answer_sdp)) = success 200 answer_sdp
webrtc_answer (ok v) = internal_error validation_error
webrtc_answer (err (relay_timeout m)) = failure 504 m
webrtc_answer (err e) = internal_error e

-- What a handler does before it awaits the relay: it has answered, or it waits for a request.
pub data Progress : Type 0 where
  answered : Response Text → Progress
  awaiting : Text → Progress

module _ (σ : Services) where
  -- `relay_webrtc_offer` up to the await of the relay.
  unfoldable pub relay_webrtc_offer : Text → Text → World σ × Relay → Progress × (World σ × Relay)
  relay_webrtc_offer robot_id sdp (w, s) =
      let (r, w') = Fleet.get_robot σ robot_id w in
      elim r [
        | ok _ ↦ let (i, s') = offer σ robot_id sdp s in (awaiting i, (w', s'))
        | err e ↦ (answered (not_found_only robot_id e), (w', s))
      ]

  pub list_robots : World σ → Response (List RobotSummary) × World σ
  list_robots = respond 200 (λ e. internal_error e) (Fleet.list_robots σ)

  pub get_robot : Text → World σ → Response RobotDetail × World σ
  get_robot robot_id = respond 200 (λ e. not_found_only robot_id e) (Fleet.get_robot σ robot_id)

  pub release_session : Text → Text → World σ → Response (Unit {0}) × World σ
  release_session robot_id operator =
      respond 204 (λ e. or_conflict 409 robot_id e) (Fleet.release_session σ robot_id operator)

  module _ (ttl_seconds : ℕ) where
    pub acquire_session : Text → Text → World σ → Response SessionInfo × World σ
    acquire_session robot_id operator =
        respond 200 (λ e. or_conflict 409 robot_id e)
          (Fleet.acquire_session σ ttl_seconds robot_id operator)

    pub send_control : Text → Text → Command → World σ → Response (Unit {0}) × World σ
    send_control robot_id operator command =
        respond 202 (λ e. or_conflict 403 robot_id e)
          (Fleet.send_command σ ttl_seconds robot_id operator command)

    pub emergency_stop : Text → Text → World σ → Response (Unit {0}) × World σ
    emergency_stop robot_id operator =
        respond 202 (λ e. not_found_only robot_id e)
          (Fleet.send_command σ ttl_seconds robot_id operator stop)
