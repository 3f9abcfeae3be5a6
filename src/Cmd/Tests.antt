-- ===== src/Cmd/Tests.antt =====
-- The theorems on the command line at concrete inputs.
use photinus.Prelude.{
  ◌*◌, ◌≡◌, refl, ◌⊎◌, inl, inr, arith, ℕ, ◌≤◌, String, Bool, true, false, not, ◌&&◌, ◌||◌, Option,
  none, some, List, [], ◌∷◌, pos, negsuc, ltb, eqb, ltb_ℤ, ◌==◌, ◌<>◌, Dict, lookup, get_or, All,
  any, count, Duration, second, hour, if◌then◌else◌,
}
use photinus.Notify.Event.{Event}
use photinus.Cmd.Config.{FileConfig, Flags}
use photinus.Cmd.Watch.{
  Parsers, Parsed, parsed, refused, Watched, tcp, disk, cpu, Watches, parse_watches,
  valid_pulse_name, split_threshold, is_percent, bad_day_count,
}
use photinus.Cmd.Watch.Complete.{is_parsed, all_parsed, watches_all_or_none}
use photinus.Cmd.Start.{exec, relay, page}
use photinus.Cmd.Start.Pages.{IsEarned, page-IsEarned}

-- Parsers that know the texts of the tests; numbers stand for floats.
abbrev toy : Parsers ℕ
toy = record {
  zero = 0;
  parse_float = λ s. if s == "85" then some 85 else none;
  is_at_most_zero = λ n. eqb n 0;
  is_over_100 = λ n. ltb 100 n;
  atoi = λ s. if s == "443" then some (pos 443) else none;
  is_host_port = λ s. s == "db:5432" || s == "[::1]:443";
  parse_duration = λ s. if s == "2h" then some (pos (2 * hour)) else none;
}

abbrev watch_list : List String
watch_list =
    "critical:tcp:db:5432" ∷ "disk:/a:b:85" ∷ "pulse:backup:2h" ∷ "critical:pulse:sync" ∷ "cpu" ∷ []

abbrev accepted : Watches ℕ
accepted = record {
  checks = tcp "db:5432" ∷ disk "box" "/a:b" 85 ∷ cpu "box" 0 ∷ [];
  pulses = ("backup", pos (2 * hour)) ∷ ("sync", pos (25 * hour)) ∷ [];
  critical = ("tcp db:5432", true) ∷ ("pulse sync", true) ∷ [];
}

is_accepted : parse_watches toy "box" watch_list ≡ parsed accepted
unfolding parse_watches photinus.Cmd.Watch.parse_item photinus.Prelude.cut
    photinus.Prelude.trim_prefix photinus.Prelude.strip split_threshold photinus.Prelude.cut_last
    valid_pulse_name photinus.Prelude.every photinus.Cmd.Watch.parse_percent photinus.Cmd.Watch.mark
    photinus.Cmd.Watch.file_item photinus.Prelude.insert
is_accepted = refl

-- An IPv6 address with a port and no day count is refused.
ipv6_is_refused : parse_watches toy "box" ("cert:[::1]:443" ∷ []) ≡ refused bad_day_count
unfolding parse_watches photinus.Cmd.Watch.parse_item photinus.Prelude.cut
    photinus.Prelude.trim_prefix photinus.Prelude.strip photinus.Prelude.cut_last
    photinus.Prelude.count_char
ipv6_is_refused = refl

abbrev silent_file : FileConfig
silent_file = record {
  id = "";
  bind = "0.0.0.0:1";
  advertise = "";
  swarm_secret = "";
  notify = "";
  notify_url = "";
  notify_url_token = "";
  apns_key = "";
  apns_key_id = "";
  apns_team_id = "";
  apns_topic = "";
  push_relay = "";
  socket = "";
  panel = "";
  swarm_token = "";
  interval = pos 0;
  skew_max = pos 0;
  alert_delay = pos 0;
  blackout = pos 0;
  defaults = some false;
  seeds = [];
  expect = [];
  watch = "cpu" ∷ [];
}

abbrev given : Flags
given = record {
  id = "box";
  bind = "0.0.0.0:7946";
  advertise = "";
  swarm_secret = "";
  notify = "/bin/page";
  notify_url = "";
  notify_url_token = "";
  apns_key = "";
  apns_key_id = "";
  apns_team_id = "";
  apns_topic = "";
  push_relay = "https://r.example";
  socket = "";
  panel = "";
  swarm_token = "";
  interval = pos (2 * second);
  skew_max = pos (5 * second);
  alert_delay = pos (120 * second);
  blackout = pos 0;
  defaults = true;
  seeds = [];
  expect = [];
  watch = [];
}

watches_all_or_none_example :
    is_parsed (parse_watches toy "box" watch_list) ≡ all_parsed toy "box" watch_list
watches_all_or_none_example = watches_all_or_none toy "box" watch_list

abbrev percentage : ℕ
percentage = 85

abbrev colon_path : String
colon_path = "/a:b"

abbrev colon_spec : String
colon_spec = "/a:b:85"

outage : Event
outage = record {
  kind = "down";
  check = "tcp";
  target = "db:5432";
  detail = "tcp on db:5432 is down";
  critical = false;
}

page-IsEarned_example :
    All
      (IsEarned toy "box" watch_list outage)
      (page accepted.critical (exec "/bin/page" ∷ relay ("https://r.example" ∷ []) ∷ []) outage)
page-IsEarned_example =
    page-IsEarned toy "box" watch_list accepted outage
      (exec "/bin/page" ∷ relay ("https://r.example" ∷ []) ∷ []) is_accepted
