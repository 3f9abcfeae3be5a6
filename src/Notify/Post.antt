-- ===== src/Notify/Post.antt =====
-- internal/notify/http.go and exec.go: what an event becomes on its way to a url or a command. The
-- answer of the url and the exit of the command are only logged.
pub mod Ladder
use photinus.Prelude.{
  ℕ, String, Bool, true, false, ◌||◌, Option, none, some, List, [], ◌∷◌, ltb, ◌==◌, ◌!=◌, ◌<>◌, cat,
  if◌then◌else◌,
}
use photinus.Notify.Event.{Event}
use photinus.Notify.Apns.{title_of}

unfoldable pub priority_for : String → String
priority_for kind =
    if kind == "down"
    then "urgent"
    else if kind == "flapping"
    then "high"
    else if kind == "cleared" || kind == "settled"
    then "low"
    else "default"

unfoldable pub tags_for : String → String
tags_for kind =
    if kind == "down"
    then "rotating_light"
    else if kind == "warning" || kind == "flapping"
    then "warning"
    else if kind == "recovered" || kind == "cleared" || kind == "settled"
    then "white_check_mark"
    else ""

-- The request of `post`; a header that is not set is none.
pub record Post : Type 0 where
  pub url : String
  pub body : String
  pub x_title : String
  pub x_priority : String
  pub x_tags : Option String
  pub authorization : Option String

abbrev unless_empty : String → String → Option String
unless_empty s value = if s != "" then some value else none

unfoldable pub post : String → String → Event → Post
post url token e = record {
  url = url;
  body = e.detail;
  x_title = title_of e;
  x_priority = priority_for e.kind;
  x_tags = unless_empty (tags_for e.kind) (tags_for e.kind);
  authorization = unless_empty token ("Bearer " <> token);
}

-- What `post` says of the answer: delivered, or not.
unfoldable pub is_delivered : ℕ → Bool
is_delivered status = if ltb status 200 || ltb 299 status then false else true

-- The command of `Exec` and its five arguments.
unfoldable pub exec_args : String → Event → List String
exec_args command e =
    command
    ∷ e.kind
    ∷ e.check
    ∷ e.target
    ∷ e.detail
    ∷ (if e.critical then "critical" else "routine")
    ∷ []
