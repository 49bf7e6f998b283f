-- ===== src/Robot/Main.antt =====
-- robot-container/robot_agent/main.py: in which order `run` starts and stops the parts of the agent.
-- Whether each call returns is an argument; the calls are the state.
use cloud_robotics.Prelude.{Bool, true, false, List, [], ◌∷◌, ◌≡◌, refl}
use cloud_robotics.Exec.{Exec, ◌>>◌}
use cloud_robotics.Calls.{ending, perform, try_finally}

pub data Part : Type 0 where
  ros_adapter video_streamer health_server agent : Part

pub data Call : Type 0 where
  start stop : Part → Call
  connect run_loops : Call

pub record Returns : Type 0 where
  pub connect_returns : Bool
  pub run_returns : Bool
  pub stops : Part → Bool

unfoldable pub run : Returns → Exec (List Call) (Unit {0})
run fates = do
  perform (start ros_adapter) true
  perform (start video_streamer) true
  perform (start health_server) true
  perform connect fates.connect_returns
  try_finally (perform run_loops fates.run_returns) (do
    perform (stop agent) (fates.stops agent)
    perform (stop health_server) (fates.stops health_server)
    perform (stop video_streamer) (fates.stops video_streamer)
    perform (stop ros_adapter) (fates.stops ros_adapter))

abbrev all_stop : Part → Bool
all_stop p = true

-- Once the agent is connected, and where the parts stop without raising, the agent is shut down and
-- what was started is stopped in the opposite order, whether the loops return or raise, and `run`
-- ends as they do.
pub run-stops :
    (run_returns : Bool)
    → run (record { connect_returns = true; run_returns = run_returns; stops = all_stop }) [] ≡ (
      ending run_returns,
      start ros_adapter
          ∷ start video_streamer
          ∷ start health_server
          ∷ connect
          ∷ run_loops
          ∷ stop agent
          ∷ stop health_server
          ∷ stop video_streamer
          ∷ stop ros_adapter
          ∷ [],
    )
unfolding run
run-stops true = refl
run-stops false = refl
