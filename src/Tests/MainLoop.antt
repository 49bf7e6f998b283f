-- ===== src/Tests/MainLoop.antt =====
-- The theorems on the streamer's main loop and on its wait for the candidates, at an offer.
use cloud_robotics.Prelude.{false, ℕ, ◌≡◌, refl, true, List, [], ◌∷◌}
use cloud_robotics.Exec.{Exec, ok}
use cloud_robotics.Robot.VideoStreamer.Pipeline.{Pipeline, new_pipeline, prepare_fresh_webrtcbin}
use cloud_robotics.Robot.VideoStreamer.MainLoop.{
  Loop, Event, called, dispatched, step, run_on_main_loop,
}
use cloud_robotics.Robot.VideoStreamer.MainLoop.Once.{IsNumbered, run_on_main_loop_lem, runs_once}
use cloud_robotics.Robot.VideoStreamer.Gathering.{
  gathering, complete, ran_out, wait_for_ice_gathering_complete,
}
use cloud_robotics.Robot.VideoStreamer.Gathering.Missed.{returning, missed}

abbrev main_loop : Loop Pipeline
main_loop = record { state = new_pipeline; idle = []; finished = []; calls = 0 }

main_loop-IsNumbered : IsNumbered main_loop
main_loop-IsNumbered = record { idle_drawn = λ k h. refl; finished_drawn = λ k h. refl }

abbrev prepare : ℕ → Exec Pipeline (Unit {0})
prepare pt = prepare_fresh_webrtcbin pt true

-- Another thread's call comes in between and is run later.
abbrev busy : List (Event Pipeline)
busy = called (prepare 97) ∷ dispatched 0 ∷ []

run_on_main_loop_lem_example : (run_on_main_loop (prepare 102) busy main_loop).0 ≡ ok tt
unfolding prepare_fresh_webrtcbin
run_on_main_loop_lem_example =
    run_on_main_loop_lem (prepare 102) busy main_loop main_loop-IsNumbered

-- The call of an offer that has been given up is run all the same.
runs_once_example :
    let l' = (run_on_main_loop (prepare 102) [] main_loop).1 in
    (step (dispatched 0) l').state ≡ (prepare 102 l'.state).1
runs_once_example = runs_once (prepare 102) [] main_loop main_loop-IsNumbered

-- Gathering completes before the handler is connected, and nothing changes after.
missed_example :
    (wait_for_ice_gathering_complete returning
      (complete ∷ [])
      []
      (record { ice_gathering_state = gathering; handlers = 0; notifies = false; done = false })).0
    ≡ ok ran_out
missed_example =
    missed (complete ∷ []) []
      (record { ice_gathering_state = gathering; handlers = 0; notifies = false; done = false })
      refl
