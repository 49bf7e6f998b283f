-- ===== src/Backend/Relay.antt =====
-- cloud-container/backend/app/webrtc/relay.py: an offer waits for the answer with its request id.
-- `relay_offer` is cut at its one await into `offer` and `resume`; between them the event loop runs
-- `handle_answer`, and `expire` when the timer of `asyncio.wait_for` fires: in Python 3.11 this wakes
-- the coroutine, which returns the result if the future has one by then, and else cancels it.
-- A future lives in `_pending` alone, so the entry stands for the object that both sides share.
pub mod Correlation
pub mod Events
use cloud_robotics.Prelude.{
  ℕ, suc, Text, lit, ◌++◌, ◌==◌, Bool, true, false, Option, none, some, List, [], ◌∷◌,
  if◌then◌else◌,
}
use cloud_robotics.Json.{Json, Fields, null, bool, num, str, arr, obj, find, or_null, truthy}
use cloud_robotics.Exec.{
  Exec, Result, ok, err, Error, lift, ◌>>=◌, ◌>>◌, as_dict, type_error, relay_timeout,
}
use cloud_robotics.Services.{Services}
use cloud_robotics.Backend.World.{Packet}
use cloud_robotics.Backend.Mqtt.{publish_camera_offer}

-- An `asyncio.Future` that `asyncio.wait_for` waits for; `released` is one that is not done, whose
-- timer has fired.
pub data Future : Type 0 where
  waiting : Future
  resolved : Json → Future
  released : Future

pub record Relay : Type 0 where
  pub pending : List (Text × Future)
  pub published : List Packet
  pub drawn : ℕ

-- `_pending.get(request_id)`
unfoldable pub future_of : Text → List (Text × Future) → Option Future
future_of i [] = none
future_of i ((j, f) ∷ rest) = if j == i then some f else future_of i rest

-- The object under a key is put into a new state, if it is there.
unfoldable pub put_future : Text → Future → List (Text × Future) → List (Text × Future)
put_future i f [] = []
put_future i f ((j, g) ∷ rest) = if j == i then (j, f) ∷ rest else (j, g) ∷ put_future i f rest

-- `_pending.pop(request_id, None)`
unfoldable pub pop : Text → List (Text × Future) → List (Text × Future)
pop i [] = []
pop i ((j, f) ∷ rest) = let popped = pop i rest in if j == i then popped else (j, f) ∷ popped

-- A future that has a result keeps it: `if not future.done()`.
abbrev pub become : Future → Future → Future
become waiting f = f
become released f = f
become (resolved sdp) f = resolved sdp

abbrev pub settle : Text → Future → List (Text × Future) → List (Text × Future)
settle i f pending = elim (future_of i pending) [
  | none ↦ pending
  | some g ↦ put_future i (become g f) pending
]

-- `self._pending.get(request_id) if request_id else None`: the key, if it can be one of the table's.
-- A list or an object that is not empty has no hash.
abbrev pub request_key : Json → Result (Option Text)
request_key (str []) = ok none
request_key (str (c ∷ t)) = ok (some (c ∷ t))
request_key (arr xs) = if truthy (arr xs) then err type_error else ok none
request_key (obj fs) = if truthy (obj fs) then err type_error else ok none
request_key _ = ok none

abbrev pub settle_key : Option Text → Json → Relay → Result (Unit {0}) × Relay
settle_key none sdp s = (ok tt, s)
settle_key (some i) sdp s = (ok tt, record s { pending = settle i (resolved sdp) s.pending })

pub handle_answer : Json → Exec Relay (Unit {0})
handle_answer payload = do
  fs ← lift (as_dict payload)
  key ← lift (request_key (or_null (find fs (lit "request_id"))))
  settle_key key (or_null (find fs (lit "sdp")))

-- `relay_offer` up to its await: the request id, and the state with the future and the message.
unfoldable pub offer : Services → Text → Text → Relay → Text × Relay
offer σ robot_id sdp s =
    let request_id = σ.uuid4 s.drawn in
    (
      request_id,
      record {
        pending = (request_id, waiting) ∷ s.pending;
        published = publish_camera_offer robot_id request_id sdp s.published;
        drawn = suc s.drawn;
      },
    )

pub expire : Text → Relay → Relay
expire request_id s = record s { pending = settle request_id released s.pending }

-- The message of the timeout.
abbrev timed_out : Text → Error
timed_out robot_id = relay_timeout (robot_id ++ lit " did not answer the WebRTC offer within 20s")

-- What `relay_offer` does when it is woken: the answer or the timeout, and the `finally`. It is not
-- woken before the future is done or the timer has fired. The cancellation of a future without a
-- result is part of the wake-up, since nothing can change it from then on.
abbrev outcome : Text → Future → Option (Result Json)
outcome robot_id waiting = none
outcome robot_id (resolved sdp) = some (ok sdp)
outcome robot_id released = some (err (timed_out robot_id))

abbrev finish : Text → Option (Result Json) → Relay → Option (Result Json × Relay)
finish request_id none s = none
finish request_id (some r) s = some (r, record s { pending = pop request_id s.pending })

unfoldable pub resume : Text → Text → Relay → Option (Result Json × Relay)
resume robot_id request_id s = elim (future_of request_id s.pending) [
  | none ↦ none
  | some f ↦ finish request_id (outcome robot_id f) s
]
