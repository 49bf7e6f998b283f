-- ===== src/Robot/Topics.antt =====
-- robot-container/robot_agent/topics.py: the robot's topic names.
use cloud_robotics.Prelude.{Text, lit, ◌++◌}

-- f"robots/{robot_id}/{suffix}"
abbrev topic : Text → Text → Text
topic robot_id suffix = lit "robots/" ++ (robot_id ++ (lit "/" ++ suffix))

abbrev pub cmd_topic : Text → Text
cmd_topic robot_id = topic robot_id (lit "cmd")

abbrev pub telemetry_topic : Text → Text
telemetry_topic robot_id = topic robot_id (lit "telemetry")

abbrev pub health_topic : Text → Text
health_topic robot_id = topic robot_id (lit "health")

abbrev pub status_topic : Text → Text
status_topic robot_id = topic robot_id (lit "status")

abbrev pub heartbeat_topic : Text → Text
heartbeat_topic robot_id = topic robot_id (lit "heartbeat")

abbrev pub lidar_topic : Text → Text
lidar_topic robot_id = topic robot_id (lit "lidar")

abbrev pub camera_offer_topic : Text → Text
camera_offer_topic robot_id = topic robot_id (lit "camera/offer")

abbrev pub camera_answer_topic : Text → Text
camera_answer_topic robot_id = topic robot_id (lit "camera/answer")
