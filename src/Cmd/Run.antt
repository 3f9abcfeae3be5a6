-- ===== src/Cmd/Run.antt =====
-- `runCmd` of cmd/photinus/run.go around the choice of checks and channels: the config file, the socket's
-- path, the warning about critical watches, and the order in which things start and end.
pub mod Ends
use photinus.Prelude.{
  ℕ, String, Bool, true, false, not, ◌&&◌, ◌||◌, Option, none, some, List, [], ◌∷◌, ◌++◌, eqb, ltb,
  ◌==◌, ◌!=◌, ◌<>◌, if◌then◌else◌,
}

-- What reading the config file comes to.
pub data ConfigRead : Type 0 where
  absent unreadable : ConfigRead
  loaded : ConfigRead

-- A file that is absent where nobody named it is fine.
unfoldable pub config_fails : Bool → ConfigRead → Bool
config_fails explicit absent = explicit
config_fails explicit unreadable = true
config_fails explicit loaded = false

-- The path that is read.
unfoldable pub config_path : String → String → String
config_path given default = if given == "" then default else given

-- The path of the status socket.
unfoldable pub socket_path : String → String → String
socket_path given default = if given == "" then default else given

-- What the log says of the critical watches, when there is a tracker; `post` and `apns` are the channels
-- for phones that it asks about, and `critical` their number.
pub data CriticalNote : Type 0 where
  silent none_critical : CriticalNote
  some_critical : ℕ → CriticalNote

unfoldable pub critical_note : Bool → Bool → Bool → ℕ → CriticalNote
critical_note tracker post apns critical =
    if not (tracker && (post || apns))
    then silent
    else if eqb critical 0
    then none_critical
    else some_critical critical

-- What a run does, in order.
pub data Act : Type 0 where
  join_swarm attach_swarm serve_status serve_panel run_lantern : Act
  farewell close_panel close_status remove_socket leave_swarm : Act

-- Which of the starts fail, and whether a panel of its own is asked for.
pub record Luck : Type 0 where
  pub wants_panel : Bool
  pub joins : Bool
  pub status_serves : Bool
  pub panel_serves : Bool

-- From the signal on.
going_dark : Luck → List Act
going_dark k =
    farewell ∷ (if k.wants_panel then close_panel ∷ [] else [])
    ++ close_status ∷ remove_socket ∷ leave_swarm ∷ []

lit : Luck → List Act
unfolding going_dark
lit k = run_lantern ∷ going_dark k

with_panel : Luck → List Act
unfolding lit
with_panel k =
    if k.wants_panel
    then (if k.panel_serves then serve_panel ∷ lit k else close_status ∷ leave_swarm ∷ [])
    else lit k

-- What is done, with what fails doing nothing.
unfoldable pub run : Luck → List Act
unfolding with_panel
run k =
    if not k.joins
    then []
    else if not k.status_serves
    then join_swarm ∷ attach_swarm ∷ leave_swarm ∷ []
    else join_swarm ∷ attach_swarm ∷ serve_status ∷ with_panel k

-- The file at the socket's path: none, one that a lantern answers on, one that a dead lantern left.
pub data SocketFile : Type 0 where
  no_file answering left_behind : SocketFile

-- `serveStatus` before it serves: another lantern keeps its socket, a dead one's is removed.
pub data Opened : Type 0 where
  already_answering cannot_open : Opened
  opened : Bool → Opened

listened : Bool → Bool → Opened
listened removed listens = if listens then opened removed else cannot_open

unfoldable pub open_socket : SocketFile → Bool → Opened
unfolding listened
open_socket no_file listens = listened false listens
open_socket answering listens = already_answering
open_socket left_behind listens = listened true listens
