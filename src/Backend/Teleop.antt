-- ===== src/Backend/Teleop.antt =====
-- cloud-container/backend/app/ws/teleop.py: a teleop connection, from the frames that it receives.
-- What the rest of the backend, the robots and the clock do while it awaits a frame is a frame too.
pub mod Closing
use cloud_robotics.Prelude.{
  ℕ, Text, lit, Bool, true, false, Option, none, some, List, [], ◌∷◌, ◌++◌,
}
use cloud_robotics.Json.{Json, null, bool, num, str, arr, obj, find, or_null}
use cloud_robotics.Exec.{
  Exec, Result, ok, err, Error, robot_not_found, session_conflict, type_error, value_error,
  websocket_disconnect, as_dict,
}
use cloud_robotics.Services.{Services}
use cloud_robotics.Backend.World.{World}
use cloud_robotics.Backend.Models.{Command, parse_command}
use cloud_robotics.Backend.Fleet

-- With a message comes whether the client is still there to take its reply.
pub data Frame (σ : Services) : Type 0 where
  message : Json → Bool → Frame σ
  undecodable : Frame σ
  elsewhere : (World σ → World σ) → Frame σ

-- The JSON objects that are sent, by their content.
pub data Reply : Type 0 where
  session_acquired : Reply
  unknown_robot : Reply
  invalid_command : Json → Reply
  sent : Command → Reply
  error : Text → Reply

-- What a frame asks for: `command not in _VALID_COMMANDS` hashes the value first.
pub data Request : Type 0 where
  run : Command → Request
  refuse : Json → Request
  fail : Error → Request

abbrev of_text : Text → Option Command → Request
of_text t none = refuse (str t)
of_text t (some c) = run c

abbrev of_command : Json → Request
of_command (str t) = of_text t (parse_command t)
of_command (arr xs) = fail type_error
of_command (obj fs) = fail type_error
of_command v = refuse v

pub request : Json → Request
request received = elim (as_dict received) [
  | err e ↦ fail e
  | ok fs ↦ of_command (or_null (find fs (lit "command")))
]

module _ (σ : Services) (ttl_seconds : ℕ) (robot_id operator : Text) where
  -- One command and its reply; an exception other than a conflict ends the loop.
  abbrev perform : Command → World σ → Result Reply × World σ
  perform command w =
      let (r, w') = Fleet.send_command σ ttl_seconds robot_id operator command w in
      elim r [
        | ok _ ↦ (ok (sent command), w')
        | err (session_conflict m) ↦ (ok (error m), w')
        | err e ↦ (err e, w')
      ]

  abbrev answer : Request → World σ → Result Reply × World σ
  answer (run command) w = perform command w
  answer (refuse value) w = (ok (invalid_command value), w)
  answer (fail e) w = (err e, w)

  -- The loop goes on after a reply and is left by an exception: without one of its own, if that is
  -- the WebSocketDisconnect of a reply that is not taken.
  abbrev pub after_answer :
      Bool
      → Result Reply × World σ
      → (List Reply × Option Error) × World σ
      → (List Reply × Option Error) × World σ
  after_answer true (ok reply, w) ((replies, e), v) = ((reply ∷ replies, e), v)
  after_answer false (ok reply, w) rest = (([], none), w)
  after_answer taken (err x, w) rest = (([], some x), w)

  -- The `while True`, up to the disconnection that ends the frames: the replies, and the exception
  -- that left the loop, if one did.
  unfoldable pub serve : List (Frame σ) → World σ → (List Reply × Option Error) × World σ
  unfolding request
  serve [] w = (([], none), w)
  serve (undecodable ∷ frames) w = (([], some value_error), w)
  serve (elsewhere step ∷ frames) w = serve frames (step w)
  serve (message received taken ∷ frames) w =
      let step = answer (request received) w in
      let rest = serve frames step.1 in after_answer taken step rest

  -- A message outside the loop, to a client that is there to take it or not.
  abbrev say : Bool → Reply → List Reply × Option Error
  say true reply = (reply ∷ [], none)
  say false reply = ([], some websocket_disconnect)

  -- The `finally`: any exception of the release is logged and dropped.
  abbrev pub close : World σ → World σ
  close w = (Fleet.release_session σ robot_id operator w).1

  -- The connection after an acquisition: its first message, the loop, then the release. That message
  -- is sent before the `try`.
  abbrev after_acquire :
      Bool → Result (Unit {0}) → List (Frame σ) → World σ → (List Reply × Option Error) × World σ
  after_acquire taken (err (robot_not_found _)) frames w = (say taken unknown_robot, w)
  after_acquire taken (err (session_conflict m)) frames w = (say taken (error m), w)
  after_acquire taken (err e) frames w = (([], some e), w)
  after_acquire false (ok _) frames w = (([], some websocket_disconnect), w)
  after_acquire true (ok _) frames w =
      let ((replies, e), w') = serve frames w in ((session_acquired ∷ replies, e), close w')

  pub teleop : Bool → List (Frame σ) → World σ → (List Reply × Option Error) × World σ
  unfolding serve
  teleop taken frames w =
      let (r, w') = Fleet.acquire_session σ ttl_seconds robot_id operator w in
      after_acquire taken (elim r [ ok _ ↦ ok tt | err e ↦ err e ]) frames w'
