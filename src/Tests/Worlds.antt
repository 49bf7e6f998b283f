-- ===== src/Tests/Worlds.antt =====
-- Two worlds over the services in memory: a fleet of one robot that nobody controls, and the same
-- fleet with a session of 100 seconds that "ada" holds.
use cloud_robotics.Prelude.{lit, ◌==◌, refl, ◌≢◌, arith, none, some, [], ◌∷◌, if◌then◌else◌}
use cloud_robotics.Services.{Lock, Stored, entry}
use cloud_robotics.Services.Memory.{memory, no_keys, db_of}
use cloud_robotics.Backend.World.{World}
use cloud_robotics.Backend.Sessions.{key}
use cloud_robotics.Backend.Sessions.Holding.{Free, Holds}
use cloud_robotics.Backend.Registry
use cloud_robotics.Backend.Registry.{RobotSummary, unknown, get_robot, summarize, summarize_row}
use cloud_robotics.Backend.Registry.Listing.{HasBadStatus}
use cloud_robotics.Backend.Topics.Parsing.{IsRobotId}
use cloud_robotics.Backend.Fleet.Commands.{IsKnown}

abbrev pub idle : World memory
idle = record {
  redis = no_keys;
  pg = db_of ((lit "r1", lit "Rover") ∷ []);
  published = [];
  now = 5000;
  drawn = 0;
}

abbrev pub ada_lock : Lock
ada_lock = record { session_id = lit "s"; operator = lit "ada"; acquired_at = 4000 }

abbrev pub held : World memory
held = record idle {
  redis =
      λ k. if lit "session:r1" == k then some (entry (Stored.lock ada_lock) (some 100)) else none;
}

-- A robot that has sent a status of its own making.
abbrev pub confused : World memory
confused = record idle {
  redis = λ k.
      if lit "robot:r1:status" == k then some (entry (Stored.plain (lit "dancing")) none) else none;
}

pub idle-Free : Free memory idle (lit "r1")
idle-Free = refl

pub held-Holds : Holds memory held (lit "r1") ada_lock 100
unfolding key ◌==◌
held-Holds = refl

abbrev pub rover : RobotSummary
rover = record {
  robot_id = lit "r1";
  display_name = lit "Rover";
  status = unknown;
  last_seen = none;
  battery_percentage = none;
  in_use_by = none;
}

pub idle-IsKnown : IsKnown memory idle (lit "r1")
idle-IsKnown = record {
  summary = rover;
  answered = unfold get_robot summarize summarize_row Registry.key ◌==◌ in refl;
}

pub held-IsKnown : IsKnown memory held (lit "r1")
held-IsKnown = record {
  summary = rover;
  answered = unfold get_robot summarize summarize_row Registry.key ◌==◌ in refl;
}

pub idle_registered : memory.pg.robot_row idle.pg (lit "r1") ≢ none
unfolding ◌==◌
idle_registered e = ground arith

pub confused_registered : memory.pg.robot_row confused.pg (lit "r1") ≢ none
unfolding ◌==◌
confused_registered e = ground arith

pub confused-HasBadStatus : HasBadStatus memory confused (lit "r1")
unfolding Registry.key ◌==◌
confused-HasBadStatus = refl

pub ada-ne-bob : lit "ada" ≢ lit "bob"
ada-ne-bob e = ground arith

pub r1-IsRobotId : IsRobotId (lit "r1")
r1-IsRobotId = record { ne-nil = ground arith; segment = omega arith }
