-- ===== src/Cmd/Start.antt =====
-- `runCmd` of cmd/photinus/run.go from the merged flags on, and `fanOut`: which checks run, which
-- channels carry a page, and what each of them hears. Whether the APNs key can be read is input.
pub mod Pages
pub mod Standard
use photinus.Prelude.{
  ℕ, ◌+◌, String, Bool, true, false, not, ◌&&◌, ◌||◌, Option, none, some, List, [], ◌∷◌, ◌++◌, map,
  ltb, leb, eqb, ◌==◌, ◌!=◌, ◌<>◌, Dict, keep, any, count, split, trim_space, if◌then◌else◌,
}
use photinus.Notify.Event.{Event, stamp_critical, push_only}
use photinus.Cmd.Config.{Flags}
use photinus.Cmd.Watch.{
  Parsers, Parsed, parsed, refused, and_then, Watched, name_of, target_of, Watches, parse_watches,
}

-- The checks that run without being named.
abbrev pub default_watches : List String
default_watches = "disk:/" ∷ "cpu" ∷ "memory" ∷ "swap" ∷ "uptime" ∷ "net" ∷ []

module _ {F : Type 0} where
  abbrev pub check_key : Watched F → String
  check_key c = name_of c <> "|" <> target_of c

  -- The keys of the named checks.
  unfoldable pub have : List (Watched F) → String → Bool
  have named k = any (λ c. check_key c == k) named

  -- The standard checks that nothing named overrides, after the named ones.
  unfoldable pub fill_in : List (Watched F) → List (Watched F) → List (Watched F)
  unfolding have
  fill_in std named = named ++ keep (λ c. not (have named (check_key c))) std

  abbrev with_standard : Watches F → Watches F → Watches F
  with_standard std ws = record ws { checks = fill_in std.checks ws.checks }

-- What a lantern watches.
unfoldable pub watched : {F : Type 0} → Parsers F → String → Bool → List String → Parsed (Watches F)
watched lib id defaults watches = and_then (parse_watches lib id watches) (λ ws.
    if defaults
    then and_then (parse_watches lib id default_watches) (λ std. parsed (with_standard std ws))
    else parsed ws)

-- A way for a page to travel.
pub data Channel : Type 0 where
  exec : String → Channel
  post : String → String → Channel
  relay : List String → Channel
  apns : String → Channel

pub data StartError : Type 0 where
  apns_incomplete relay_and_apns no_relay_url bad_apns_key : StartError

pub data Chosen : Type 0 where
  unstarted : StartError → Chosen
  chosen : List Channel → Chosen

-- The urls of `-push-relay`.
unfoldable pub relay_urls : String → List String
relay_urls urls = keep (λ u. u != "") (map trim_space (split b',' urls))

-- How many of the four APNs flags are given.
abbrev pub apns_set : Flags → ℕ
apns_set f = count (λ v. v != "") (f.apns_key ∷ f.apns_key_id ∷ f.apns_team_id ∷ f.apns_topic ∷ [])

exec_channel : Flags → List Channel
exec_channel f = if f.notify != "" then exec f.notify ∷ [] else []

post_channel : Flags → List Channel
post_channel f = if f.notify_url != "" then post f.notify_url f.notify_url_token ∷ [] else []

relay_channel : Flags → List Channel
relay_channel f = if f.push_relay != "" then relay (relay_urls f.push_relay) ∷ [] else []

apns_channel : Flags → List Channel
apns_channel f = if eqb (apns_set f) 4 then apns f.apns_topic ∷ [] else []

any_url : List String → Bool
any_url [] = false
any_url (u ∷ us) = true

-- The channels, in order, or the reason that the lantern does not start.
unfoldable pub channels : Bool → Flags → Chosen
unfolding exec_channel post_channel relay_channel apns_channel any_url
channels key_ok f =
    if ltb 0 (apns_set f) && ltb (apns_set f) 4
    then unstarted apns_incomplete
    else if f.push_relay != "" && ltb 0 (apns_set f)
    then unstarted relay_and_apns
    else if f.push_relay != "" && not (any_url (relay_urls f.push_relay))
    then unstarted no_relay_url
    else if eqb (apns_set f) 4 && not key_ok
    then unstarted bad_apns_key
    else chosen (exec_channel f ++ post_channel f ++ relay_channel f ++ apns_channel f)

-- What a channel passes on of an event: a command hears all, the others only what interrupts.
abbrev pub hears : Channel → Event → List Event
hears (exec command) e = e ∷ []
hears (post url token) e = push_only e
hears (relay urls) e = push_only e
hears (apns topic) e = push_only e

-- `fanOut`: the event on each channel in turn.
unfoldable pub fan_out : List Channel → Event → List (Channel × Event)
fan_out [] e = []
fan_out (c ∷ cs) e = map (λ heard. (c, heard)) (hears c e) ++ fan_out cs e

-- The tracker's sender: the stamp, then the channels.
unfoldable pub page : Dict Bool → List Channel → Event → List (Channel × Event)
unfolding fan_out
page critical cs e = fan_out cs (stamp_critical critical e)
