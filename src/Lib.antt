-- ===== src/Lib.antt =====
-- The cloud robotics platform: the backend of the fleet (cloud-container/backend/app) and the agent
-- on each robot (robot-container/robot_agent), which talk over MQTT.
--
-- The parts and their files. Prelude holds the shared names and lemmas, Json the JSON values of the
-- messages, Yaml those of the configuration files, Exec the monad of a method that may raise and
-- keeps what it wrote, Results that of one without a state, Services the interfaces of Redis,
-- PostgreSQL and uuid4, with values in memory in Services/Memory.
--   Backend/Models, Topics: models.py, mqtt/topics.py. The regular expression of parse_topic is run
--     by hand.
--   Backend/World: what the coroutines write: the two stores and the messages handed to paho.
--   Backend/Sessions: sessions/manager.py, SessionManager. `acquire` is a read and `acquire_from`, so
--     that two acquisitions can be interleaved at the await between them. Sessions/Spec is what the
--     manager promises, a function from a robot to its holder and the seconds left; Sessions/Shown,
--     Steps and Refinement compare the two over sequences of operations.
--   Backend/Registry: registry/store.py, RobotRegistry.
--   Backend/Mqtt: mqtt/service.py, MQTTService; Backend/Main: the handlers that main.py registers, and
--     in Main/Lifespan what it opens and closes.
--   Backend/Fleet: fleet/manager.py, FleetManager, over the three above.
--   Backend/Relay: webrtc/relay.py, WebRTCSignallingRelay. `relay_offer` is cut at its await into
--     `offer` and `resume`; `expire` is the timer of `asyncio.wait_for`. Relay/Events has what the
--     event loop runs between them.
--   Backend/Auth: auth/*.py and api/auth.py; Backend/Api: api/robots.py and
--     api/webrtc.py; Backend/Teleop: ws/teleop.py; Backend/Health: api/health.py and ws/status.py;
--     Backend/Config: config.py, Config/Fields the class Settings and config/default.yaml.
--   Robot/Topics, Models, Dispatcher, Watchdog, MqttClient, Agent: the modules of robot_agent of those
--     names. Agent/Publishing has the periodic messages, Agent/Messages the two inbound ones,
--     Agent/Reports what the health server is told, Agent/Loops the loops of `run` with the callbacks
--     between their turns.
--   Robot/Config: config.py, its dataclasses in Config/Classes; Robot/HealthServer: health_server.py;
--     Robot/Main: main.py, the order of its calls. Logging: both logging_config.py; Calls: what the
--     files on starting and stopping share.
--   Robot/Sdp: sdp_utils.py, its regular expressions run by hand; Sdp/Rewriting has the second of its
--     two functions, Sdp/Scanning and Sdp/Mline compare both with texts written line by line.
--   Robot/MockAdapter: mock_ros_adapter.py, over an arithmetic of floats that is an argument.
--   Robot/VideoStreamer: video_streamer.py, the path of a frame and the steps of a negotiation;
--     VideoStreamer/Pipeline has the elements behind the encode chain, VideoStreamer/MainLoop the calls
--     that other threads hand to the GLib main loop, VideoStreamer/Gathering the wait for candidates.
--   Robot/RosAdapter, Robot/Webcam, Robot/Launch: real_ros_adapter.py, webcam_driver.py and
--     simulation.launch.py of robot-container/ros_ws.
--   Broker: cloud-container/mosquitto/aclfile, the rules by which the broker lets the two programs
--     publish and read, over the functions of Mosquitto.
--   Tests: worlds in memory, and the theorems at concrete inputs.
-- A method of a class is the function of its name in snake case without a leading underscore, on a
-- record of the attributes that it uses. Proofs stand in child modules named for what they prove.
--
-- Conventions. A JSON text is kept as the value that it denotes, and one that is no JSON is a case of
-- its own. Floats are numbers of thousandths, times of the backend milliseconds. An operation is one
-- run to its end where the source awaits only its own stores; interleavings that matter are explicit:
-- two acquisitions in Sessions/Race, events between an offer and its answer in Relay, other writers
-- between the frames of a socket in Teleop. Every loop is recursion on the list of what it meets (the
-- attempts, checks, frames or events), so no fuel is needed.
--
-- Not modelled: the pools and the schema text of db/*.py, behind the interfaces of Services; the
-- validation of the backend's settings by pydantic; FastAPI's routing and paho, which hand over the
-- arguments and take the results; on the robot the signals and the threads, so two offers that are
-- negotiated at once; the HTTP server of Python; and GStreamer, OpenCV and rclpy, whose answers are
-- arguments. The classes of characters of Python's `re`, what `int` and `float` make of a text, and
-- the arithmetic of floats in the adapters are arguments too. The streamer takes the two functions
-- of sdp_utils.py as arguments, which VideoStreamer/Codecs gives it, and the agent the streamer's
-- `handle_offer`. The frontend and the deployment files are outside.
pub mod Prelude
pub mod Json
pub mod Yaml
pub mod Exec
pub mod Calls
pub mod Logging
pub mod Results
pub mod Services
pub mod Backend
pub mod Broker
pub mod Robot
pub mod Tests
