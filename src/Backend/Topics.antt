-- ===== src/Backend/Topics.antt =====
-- cloud-container/backend/app/mqtt/topics.py: the backend's topic names, and the parser of inbound
-- topics. The regular expression `^robots/([^/]+)/(.+)$` is run by hand: both greedy groups are
-- maximal runs, since no shorter run could be followed by what the expression asks for.
pub mod Parsing
use cloud_robotics.Prelude.{
  ℕ, Text, lit, ◌++◌, Bool, true, false, Option, none, some, [], ◌∷◌, nat_beq, if◌then◌else◌,
}

abbrev pub cmd_topic : Text → Text
cmd_topic robot_id = lit "robots/" ++ (robot_id ++ lit "/cmd")

abbrev pub cmd_topic_wildcard : Text
cmd_topic_wildcard = lit "robots/+/cmd"

abbrev pub status_topic_wildcard : Text
status_topic_wildcard = lit "robots/+/status"

abbrev pub telemetry_topic_wildcard : Text
telemetry_topic_wildcard = lit "robots/+/telemetry"

abbrev pub health_topic_wildcard : Text
health_topic_wildcard = lit "robots/+/health"

abbrev pub heartbeat_topic_wildcard : Text
heartbeat_topic_wildcard = lit "robots/+/heartbeat"

abbrev pub lidar_topic_wildcard : Text
lidar_topic_wildcard = lit "robots/+/lidar"

abbrev pub camera_offer_topic : Text → Text
camera_offer_topic robot_id = lit "robots/" ++ (robot_id ++ lit "/camera/offer")

abbrev pub camera_answer_topic_wildcard : Text
camera_answer_topic_wildcard = lit "robots/+/camera/answer"

-- The longest run of characters other than `c`, and what follows it.
unfoldable pub span_ne : ℕ → Text → Text × Text
span_ne c [] = ([], [])
span_ne c (x ∷ xs) =
    let (run, rest) = span_ne c xs in if nat_beq x c then ([], x ∷ xs) else (x ∷ run, rest)

-- What follows a literal.
unfoldable pub strip_prefix : Text → Text → Option Text
strip_prefix [] t = some t
strip_prefix (p ∷ ps) [] = none
strip_prefix (p ∷ ps) (c ∷ t) = if nat_beq p c then strip_prefix ps t else none

-- `$` matches at the end, and before a newline that ends the text.
abbrev pub at_end : Text → Bool
at_end [] = true
at_end (c ∷ []) = nat_beq c 10
at_end (c ∷ d ∷ t) = false

-- `(.+)$`
abbrev pub match_suffix : Text → Text × Text → Option (Text × Text)
match_suffix robot_id ([], rest) = none
match_suffix robot_id (c ∷ suffix, rest) = if at_end rest then some (robot_id, c ∷ suffix) else none

-- `([^/]+)/(.+)$`
abbrev pub match_robot_id : Text × Text → Option (Text × Text)
match_robot_id ([], rest) = none
match_robot_id (c ∷ robot_id, []) = none
match_robot_id (c ∷ robot_id, slash ∷ rest) = match_suffix (c ∷ robot_id) (span_ne 10 rest)

-- `([^/]+)/(.+)$` behind the literal, if that was found.
abbrev pub match_rest : Option Text → Option (Text × Text)
match_rest none = none
match_rest (some rest) = match_robot_id (span_ne b'/' rest)

unfoldable pub parse_topic : Text → Option (Text × Text)
parse_topic topic = match_rest (strip_prefix (lit "robots/") topic)
