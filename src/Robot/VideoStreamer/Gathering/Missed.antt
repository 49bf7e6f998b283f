-- ===== src/Robot/VideoStreamer/Gathering/Missed.antt =====
-- The candidates' completion that no handler hears of
-- (robot-container/robot_agent/video_streamer.py).
use cloud_robotics.Prelude.{Bool, false, List, [], ◌∷◌, ◌||◌, ◌&&◌, ◌≡◌, refl, arith, if◌then◌else◌}
use cloud_robotics.Exec.{ok}
use cloud_robotics.Robot.VideoStreamer.Gathering.{
  GatheringState, Element, Calls, notified, ran_out, is_complete, change, changes, connect,
  wait_for_ice_gathering_complete,
}

-- The calls that return.
abbrev pub returning : Calls
returning = record { reading = ok tt; connecting = ok tt; disconnecting = ok tt }

abbrev pub completes : List GatheringState → Bool
completes [] = false
completes (g ∷ gs) = is_complete g || completes gs

-- What a run of changes leaves as it was, and when it sets the event.
changes_lem :
    (gs : List GatheringState) (e : Element)
    → ((changes gs e).handlers ≡ e.handlers)
      × ((changes gs e).notifies ≡ e.notifies)
      × ((changes gs e).done ≡ (e.done || (e.notifies && completes gs)))
unfolding changes
changes_lem [] e = (refl, refl, ground arith)
changes_lem (g ∷ gs) e =
    let (handlers, notifies, done) = changes_lem gs (change g e) in
    (handlers, notifies, ground (arith, done))

-- The handler is taken off again where the call that does so returns, in every case of the others.
pub handlers_kept :
    (calls : Calls) (connecting waiting : List GatheringState) (e : Element)
    → calls.disconnecting ≡ ok tt
    → (wait_for_ice_gathering_complete calls connecting waiting e).1.handlers ≡ e.handlers
unfolding wait_for_ice_gathering_complete
handlers_kept calls connecting waiting e h =
    let before = changes connecting (record e { notifies = false; done = false }) in
    ground (
      arith,
      h,
      changes_lem connecting (record e { notifies = false; done = false }),
      changes_lem waiting (connect before),
    )

-- Where gathering is not complete when the property is read, and the calls return, the wait is ended
-- by the event exactly if the property becomes complete after the handler is connected; a completion
-- between the reading and the connection is missed, and the wait runs its whole time out.
pub missed :
    (connecting waiting : List GatheringState) (e : Element)
    → is_complete e.ice_gathering_state ≡ false
    → (wait_for_ice_gathering_complete returning connecting waiting e).0
      ≡ ok (if completes waiting then notified else ran_out)
unfolding wait_for_ice_gathering_complete
missed connecting waiting e before_end =
    let before = changes connecting (record e { notifies = false; done = false }) in
    ground (
      arith,
      before_end,
      changes_lem connecting (record e { notifies = false; done = false }),
      changes_lem waiting (connect before),
    )
