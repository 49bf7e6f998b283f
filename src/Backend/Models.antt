-- ===== src/Backend/Models.antt =====
-- cloud-container/backend/app/models.py: the commands of a `ControlRequest`.
use cloud_robotics.Prelude.{Text, lit, ◌==◌, Option, none, some, if◌then◌else◌}

pub data Command : Type 0 where
  forward backward left right stop : Command

-- The text of the literal.
abbrev pub command_text : Command → Text
command_text forward = lit "forward"
command_text backward = lit "backward"
command_text left = lit "left"
command_text right = lit "right"
command_text stop = lit "stop"

-- The validation of a text against the five literals.
unfoldable pub parse_command : Text → Option Command
parse_command t =
    if t == lit "forward"
    then some forward
    else if t == lit "backward"
    then some backward
    else if t == lit "left"
    then some left
    else if t == lit "right"
    then some right
    else if t == lit "stop"
    then some stop
    else none
