-- ===== src/Robot/VideoStreamer/Gathering.antt =====
-- robot-container/robot_agent/video_streamer.py: `_wait_for_ice_gathering_complete`. The states that
-- GStreamer gives the property `ice-gathering-state`, before the handler is connected and while it
-- is, and how each `_run_on_main_loop` ends, are arguments.
pub mod Missed
use cloud_robotics.Prelude.{
  ℕ, suc, ◌-◌, Bool, true, false, List, [], ◌∷◌, ◌||◌, ◌&&◌, if◌then◌else◌,
}
use cloud_robotics.Exec.{Exec, Result, ok, err, pure, lift, gets, modify, ◌>>=◌, ◌>>◌}

pub data GatheringState : Type 0 where
  new gathering complete : GatheringState

-- The webrtcbin: its property, the handlers of its notification, whether `on_notify` is one of them,
-- and the event `done` that it sets.
pub record Element : Type 0 where
  pub ice_gathering_state : GatheringState
  pub handlers : ℕ
  pub notifies : Bool
  pub done : Bool

-- How the calls end that read the property, connect the handler and disconnect it.
pub record Calls : Type 0 where
  pub reading : Result (Unit {0})
  pub connecting : Result (Unit {0})
  pub disconnecting : Result (Unit {0})

-- How the wait ends: at once, by `done`, or when its time is up. The offer is answered either way.
pub data Waited : Type 0 where
  at_once notified ran_out : Waited

abbrev pub is_complete : GatheringState → Bool
is_complete complete = true
is_complete gathering = false
is_complete new = false

-- A change of the property calls the handlers: `on_notify` sets `done` if gathering is complete.
abbrev pub change : GatheringState → Element → Element
change g e = record e { ice_gathering_state = g; done = e.done || (e.notifies && is_complete g) }

unfoldable pub changes : List GatheringState → Element → Element
changes [] e = e
changes (g ∷ gs) e = changes gs (change g e)

abbrev pub connect : Element → Element
connect e = record e { handlers = suc e.handlers; notifies = true }

abbrev pub disconnect : Element → Element
disconnect e = record e { handlers = e.handlers - 1; notifies = false }

-- From the new event and the new `on_notify` on, with the `finally`: the body raises nothing.
abbrev pub listen : Calls → List GatheringState → List GatheringState → Exec Element Waited
listen calls connecting waiting = do
  modify (λ e. record e { notifies = false; done = false })
  modify (changes connecting)
  lift calls.connecting
  modify connect
  modify (changes waiting)
  set ← gets (λ e. e.done)
  lift calls.disconnecting
  modify disconnect
  pure (if set then notified else ran_out)

-- `connecting` are the changes before the main loop has connected the handler, `waiting` those from
-- then on until the wait is over.
pub wait_for_ice_gathering_complete :
    Calls → List GatheringState → List GatheringState → Exec Element Waited
wait_for_ice_gathering_complete calls connecting waiting = do
  lift calls.reading
  gathered ← gets (λ e. is_complete e.ice_gathering_state)
  if gathered then pure at_once else listen calls connecting waiting
