-- ===== src/Cmd/Main.antt =====
-- cmd/photinus/main.go and forget.go: the choice of the command, and the request that `forget` sends to
-- the local lantern. `url.QueryEscape` and the path of the default socket are parameters.
use photinus.Prelude.{
  ℕ, String, Bool, true, not, ◌||◌, Option, none, some, List, [], ◌∷◌, eqb, ◌==◌, cat,
  if◌then◌else◌,
}
use photinus.Cmd.Run.{socket_path}

pub data Command : Type 0 where
  run_command status_command forget_command : List String → Command
  print_version print_usage : Command
  unknown_command : String → Command
  no_command : Command

named : String → List String → Command
named c args =
    if c == "run"
    then run_command args
    else if c == "status"
    then status_command args
    else if c == "forget"
    then forget_command args
    else if c == "version" || c == "-v" || c == "--version"
    then print_version
    else if c == "help" || c == "-h" || c == "--help"
    then print_usage
    else unknown_command c

-- The command line without the program's name.
unfoldable pub command_of : List String → Command
unfolding named
command_of [] = no_command
command_of (c ∷ args) = named c args

-- The exit status: 2 where the command line makes no sense, 1 for a command that fails.
unfoldable pub exit_status : Command → Bool → ℕ
exit_status (run_command args) fails = if fails then 1 else 0
exit_status (status_command args) fails = if fails then 1 else 0
exit_status (forget_command args) fails = if fails then 1 else 0
exit_status print_version fails = 0
exit_status print_usage fails = 0
exit_status (unknown_command c) fails = 2
exit_status no_command fails = 2

-- What `forget` asks of the lantern at a socket, for exactly two arguments.
pub record Forget : Type 0 where
  pub socket : String
  pub url : String

unfoldable pub forget_request : (String → String) → String → String → List String → Option Forget
forget_request escape default socket [] = none
forget_request escape default socket (check ∷ []) = none
forget_request escape default socket (check ∷ target ∷ []) = some (record {
  socket = socket_path socket default;
  url = cat ("http://photinus/forget?check=" ∷ escape check ∷ "&target=" ∷ escape target ∷ []);
})
forget_request escape default socket (check ∷ target ∷ more ∷ rest) = none

-- Only a lantern that answers 200 has forgotten.
unfoldable pub forget_fails : Option ℕ → Bool
forget_fails none = true
forget_fails (some status) = not (eqb status 200)
