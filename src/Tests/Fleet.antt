-- ===== src/Tests/Fleet.antt =====
-- The theorems on commands, the registry, the API and the teleop socket at the worlds of
-- Tests/Worlds.
use cloud_robotics.Prelude.{
  ℕ, ◌+◌, ◌≤◌, none, lit, ◌==◌, ◌≡◌, refl, ◌≢◌, ◌⊎◌, true, false, some, List, [], ◌∷◌, ◌++◌, arith,
}
use cloud_robotics.Prelude.Int.{pos}
use cloud_robotics.Json.{Json, str, num, object}
use cloud_robotics.Exec.{ok, is_ok, websocket_disconnect}
use cloud_robotics.Services.Memory.{memory}
use cloud_robotics.Backend.World.{World, Packet}
use cloud_robotics.Backend.Models.{forward, stop}
use cloud_robotics.Backend.Topics.{cmd_topic}
use cloud_robotics.Backend.Sessions.{
  read, to_info, get_holder, not_control_holder, already_controlled, not_active_holder,
}
use cloud_robotics.Backend.Sessions.Holding.{Takes}
use cloud_robotics.Backend.Registry.{
  get_telemetry, get_health, get_lidar_scan, record_telemetry, record_health, record_lidar_scan,
  key, summarize, summarize_row,
}
use cloud_robotics.Backend.Registry.Listing.{list_robots-bad}
use cloud_robotics.Backend.Registry
use cloud_robotics.Backend.Sessions
use cloud_robotics.Backend.Fleet
use cloud_robotics.Backend.Fleet.{send_command, require_known}
use cloud_robotics.Backend.Fleet.Commands.{
  IsKnown, command_packet, holder_commands, bad_status_blocks_stop,
}
use cloud_robotics.Backend.Api.{
  success, failure, unknown_detail, get_robot, acquire_session, release_session, send_control,
  emergency_stop, answered, relay_webrtc_offer,
}
use cloud_robotics.Backend.Relay.{Relay}
use cloud_robotics.Backend.Api.Statuses.{held_robot_statuses, unknown_robot_statuses}
use cloud_robotics.Backend.Fleet.Commands.Senders.{sent_only_by_holder}
use cloud_robotics.Backend.Teleop.{Frame, message, undecodable, serve, teleop}
use cloud_robotics.Backend.Teleop.Closing.{Sends, untaken, count_sent, serve-Sends, teleop_releases}
use cloud_robotics.Backend.Sessions.Ending.{get_holder-Free, get_holder-Holds}
use cloud_robotics.Backend.Health.{Turn, status_stream}
use cloud_robotics.Backend.Health.Stream.{StaysReadable, Follows, status_stream-Follows}
use cloud_robotics.Backend.Fleet.Listing.{IsReadable}
use cloud_robotics.Tests.Worlds.{
  idle-Free, rover, idle, ada_lock, held, confused, held-Holds, held-IsKnown, ada-ne-bob,
  confused_registered, confused-HasBadStatus,
}

forward-ne-stop : forward ≢ stop
forward-ne-stop e = cc

sent_only_by_holder_example :
    let (res, w') = send_command memory 60 (lit "r1") (lit "ada") forward held in
    ((is_ok res ≡ false) × (w'.published ≡ held.published))
    ⊎ ((res ≡ ok tt)
        × ((p : Packet) × (w'.published ≡ held.published ++ p ∷ [])
            × (p.topic ≡ cmd_topic (lit "r1")))
        × ((forward ≡ stop) ⊎ (get_holder memory (lit "r1") held ≡ (ok (some (lit "ada")), held))))
sent_only_by_holder_example = sent_only_by_holder memory 60 held (lit "r1") (lit "ada") forward

holder_commands_example :
    let (res, w') = send_command memory 60 (lit "r1") (lit "ada") forward held in
    (res ≡ ok tt)
    × (w'.published ≡ held.published ++ command_packet memory held (lit "r1") forward ∷ [])
    × Takes memory held w' (lit "r1") ada_lock 60
    × (w'.pg ≡ held.pg)
    × (w'.now ≡ held.now)
holder_commands_example =
    holder_commands memory 60 held (lit "r1") ada_lock 100 forward (omega arith) held-IsKnown
      held-Holds forward-ne-stop

bad_status_blocks_stop_example :
    let (res, w') = send_command memory 60 (lit "r1") (lit "ada") stop confused in
    (is_ok res ≡ false) × (w' ≡ confused)
bad_status_blocks_stop_example =
    bad_status_blocks_stop memory 60 confused (lit "r1") (lit "ada") stop confused-HasBadStatus

list_robots-bad_example : is_ok (Registry.list_robots memory confused).0 ≡ false
list_robots-bad_example =
    list_robots-bad memory (lit "r1") confused confused_registered confused-HasBadStatus

abbrev payload : Json
payload = object ((lit "timestamp", num (pos 7)) ∷ [])

held_robot_statuses_example :
    ((send_control memory 60 (lit "r1") (lit "ada") forward held).0 ≡ success 202 tt)
    × ((send_control memory 60 (lit "r1") (lit "bob") forward held).0
        ≡ failure 403 (not_control_holder (lit "bob") (lit "r1")))
    × ((emergency_stop memory 60 (lit "r1") (lit "bob") held).0 ≡ success 202 tt)
    × ((emergency_stop memory 60 (lit "r1") (lit "ada") held).0 ≡ success 202 tt)
    × ((acquire_session memory 60 (lit "r1") (lit "bob") held).0
        ≡ failure 409 (already_controlled (lit "r1")))
    × ((release_session memory (lit "r1") (lit "bob") held).0
        ≡ failure 409 (not_active_holder (lit "bob") (lit "r1")))
held_robot_statuses_example =
    held_robot_statuses memory 60 held (lit "r1") (lit "bob") ada_lock 100 forward (omega arith)
      held-IsKnown held-Holds ada-ne-bob forward-ne-stop

abbrev quiet : Relay
quiet = record { pending = []; published = []; drawn = 0 }

unknown_robot_statuses_example :
    ((send_control memory 60 (lit "r2") (lit "ada") forward idle).0
      ≡ failure 404 (unknown_detail (lit "r2")))
    × ((emergency_stop memory 60 (lit "r2") (lit "ada") idle).0
        ≡ failure 404 (unknown_detail (lit "r2")))
    × ((acquire_session memory 60 (lit "r2") (lit "ada") idle).0
        ≡ failure 404 (unknown_detail (lit "r2")))
    × ((release_session memory (lit "r2") (lit "ada") idle).0
        ≡ failure 404 (unknown_detail (lit "r2")))
    × ((get_robot memory (lit "r2") idle).0 ≡ failure 404 (unknown_detail (lit "r2")))
    × (relay_webrtc_offer memory (lit "r2") (lit "v=0") (idle, quiet)
        ≡ (answered (failure 404 (unknown_detail (lit "r2"))), (idle, quiet)))
unknown_robot_statuses_example =
    unknown_robot_statuses memory 60 idle quiet (lit "r2") (lit "ada") (lit "v=0") forward
      (unfold ◌==◌ in refl)

-- A command of the holder, a frame that is no JSON, and a command that is not read any more.
abbrev frames : List (Frame memory)
frames =
    message (object ((lit "command", str (lit "left")) ∷ [])) true
    ∷ undecodable
    ∷ message (object ((lit "command", str (lit "right")) ∷ [])) false
    ∷ []

serve-Sends_example :
    let ((replies, e), w') = serve memory 60 (lit "r1") (lit "ada") frames held in
    (k : ℕ) × Sends held w' (lit "r1") (count_sent replies + k) × (k ≤ untaken frames)
serve-Sends_example = serve-Sends memory 60 (lit "r1") (lit "ada") frames held (tt, (tt, (tt, tt)))

-- The world in which the socket of "ada" on the idle robot waits for frames.
abbrev connected : World memory
connected = (Fleet.acquire_session memory 60 (lit "r1") (lit "ada") idle).1

acquired : is_ok (Fleet.acquire_session memory 60 (lit "r1") (lit "ada") idle).0 ≡ true
unfolding Fleet.acquire_session require_known Sessions.acquire read to_info Registry.get_robot
    summarize summarize_row ◌==◌ key Sessions.key
acquired = refl

abbrev dropped : List (Frame memory)
dropped = undecodable ∷ []

connected-IsKnown :
    IsKnown memory (serve memory 60 (lit "r1") (lit "ada") dropped connected).1 (lit "r1")
connected-IsKnown = record {
  summary = rover;
  answered =
      unfold Fleet.acquire_session require_known Sessions.acquire read to_info Registry.get_robot
        summarize summarize_row ◌==◌ key Sessions.key serve in
      refl;
}

teleop_releases_example :
    ((get_holder memory (lit "r1") (teleop memory 60 (lit "r1") (lit "ada") true dropped idle).1).0
      ≢ ok (some (lit "ada")))
    × (teleop memory 60 (lit "r1") (lit "ada") false dropped idle
        ≡ (([], some websocket_disconnect), connected))
teleop_releases_example =
    teleop_releases memory 60 (lit "r1") (lit "ada") dropped idle acquired connected-IsKnown

idle-IsReadable : IsReadable memory idle (lit "r1", lit "Rover")
idle-IsReadable = record {
  summary = (rover, unfold summarize Registry.key ◌==◌ in refl);
  holder = none;
  held = get_holder-Free memory idle (lit "r1") idle-Free;
}

held-IsReadable : IsReadable memory held (lit "r1", lit "Rover")
held-IsReadable = record {
  summary = (rover, unfold summarize Registry.key ◌==◌ in refl);
  holder = some (lit "ada");
  held = get_holder-Holds memory held (lit "r1") ada_lock 100 held-Holds;
}

-- The client takes a snapshot, ada acquires the robot, and the client takes another and is gone.
abbrev turns : List (Turn memory)
turns =
    record { taken = true; elsewhere = λ w. held }
    ∷ record { taken = true; elsewhere = λ w. w }
    ∷ record { taken = false; elsewhere = λ w. w }
    ∷ []

turns-StaysReadable : StaysReadable memory turns idle
unfolding StaysReadable Fleet.acquire_session require_known Sessions.acquire read to_info
    Registry.get_robot summarize summarize_row ◌==◌ Registry.key Sessions.key
turns-StaysReadable = ((idle-IsReadable, tt), ((held-IsReadable, tt), ((held-IsReadable, tt), tt)))

status_stream-Follows_example :
    Follows memory turns idle (status_stream memory turns idle).0.0
    × ((status_stream memory turns idle).0.1 ≡ none)
status_stream-Follows_example = status_stream-Follows memory turns idle turns-StaysReadable
