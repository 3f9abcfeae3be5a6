-- ===== src/Cmd/Config.antt =====
-- `mergeConfig` of cmd/photinus/config.go: the YAML file underneath the flags of `photinus run`.
pub mod Layers
use photinus.Prelude.{
  ◌==◌, get_or, String, Bool, true, false, not, ◌&&◌, ◌||◌, Option, none, some, List, [], ◌∷◌, ℤ,
  pos, negsuc, eqb, Duration, ◌!=◌, contains, if◌then◌else◌,
}

-- What the file says, zero where it says nothing.
pub record FileConfig : Type 0 where
  pub id : String
  pub bind : String
  pub advertise : String
  pub swarm_secret : String
  pub notify : String
  pub notify_url : String
  pub notify_url_token : String
  pub apns_key : String
  pub apns_key_id : String
  pub apns_team_id : String
  pub apns_topic : String
  pub push_relay : String
  pub socket : String
  pub panel : String
  pub swarm_token : String
  pub interval : Duration
  pub skew_max : Duration
  pub alert_delay : Duration
  pub blackout : ℤ
  pub defaults : Option Bool
  pub seeds : List String
  pub expect : List String
  pub watch : List String

-- The values of the flags, given or by default.
pub record Flags : Type 0 where
  pub id : String
  pub bind : String
  pub advertise : String
  pub swarm_secret : String
  pub notify : String
  pub notify_url : String
  pub notify_url_token : String
  pub apns_key : String
  pub apns_key_id : String
  pub apns_team_id : String
  pub apns_topic : String
  pub push_relay : String
  pub socket : String
  pub panel : String
  pub swarm_token : String
  pub interval : Duration
  pub skew_max : Duration
  pub alert_delay : Duration
  pub blackout : ℤ
  pub defaults : Bool
  pub seeds : List String
  pub expect : List String
  pub watch : List String

abbrev pub is_zero : ℤ → Bool
is_zero (pos n) = eqb n 0
is_zero (negsuc n) = false

abbrev pub is_given : List String → Bool
is_given [] = false
is_given (x ∷ xs) = true

-- One value: the file's, if the flag is not set and the file says anything.
abbrev pub str : Bool → String → String → String
str set dst v = if not set && v != "" then v else dst

abbrev pub number : Bool → ℤ → ℤ → ℤ
number set dst v = if not set && not (is_zero v) then v else dst

abbrev pub choice : Bool → Bool → Option Bool → Bool
choice set dst none = dst
choice set dst (some v) = if not set then v else dst

abbrev pub names : Bool → List String → List String → List String
names set dst v = if not set && is_given v then v else dst

-- `set` lists the flags given on the command line.
unfoldable pub merge_config : FileConfig → List String → Flags → Flags
merge_config fc set f = record {
  id = str (contains set "id") f.id fc.id;
  bind = str (contains set "bind") f.bind fc.bind;
  advertise = str (contains set "advertise") f.advertise fc.advertise;
  swarm_secret = str (contains set "swarm-secret") f.swarm_secret fc.swarm_secret;
  notify = str (contains set "notify") f.notify fc.notify;
  notify_url = str (contains set "notify-url") f.notify_url fc.notify_url;
  notify_url_token = str (contains set "notify-url-token") f.notify_url_token fc.notify_url_token;
  apns_key = str (contains set "apns-key") f.apns_key fc.apns_key;
  apns_key_id = str (contains set "apns-key-id") f.apns_key_id fc.apns_key_id;
  apns_team_id = str (contains set "apns-team-id") f.apns_team_id fc.apns_team_id;
  apns_topic = str (contains set "apns-topic") f.apns_topic fc.apns_topic;
  push_relay = str (contains set "push-relay") f.push_relay fc.push_relay;
  socket = str (contains set "socket") f.socket fc.socket;
  panel = str (contains set "panel") f.panel fc.panel;
  swarm_token = str (contains set "swarm-token") f.swarm_token fc.swarm_token;
  interval = number (contains set "interval") f.interval fc.interval;
  skew_max = number (contains set "skew-max") f.skew_max fc.skew_max;
  blackout = number (contains set "blackout") f.blackout fc.blackout;
  alert_delay = number (contains set "alert-delay") f.alert_delay fc.alert_delay;
  defaults = choice (contains set "defaults") f.defaults fc.defaults;
  seeds = names (contains set "seed") f.seeds fc.seeds;
  watch = names (contains set "watch") f.watch fc.watch;
  expect = names (contains set "expect") f.expect fc.expect;
}

-- Every flag that has a key in the file.
abbrev pub all_flags : List String
all_flags =
    "id" ∷ "bind" ∷ "advertise" ∷ "swarm-secret" ∷ "notify" ∷ "notify-url" ∷ "notify-url-token"
    ∷ "apns-key" ∷ "apns-key-id" ∷ "apns-team-id" ∷ "apns-topic" ∷ "push-relay" ∷ "socket" ∷ "panel"
    ∷ "swarm-token" ∷ "interval" ∷ "skew-max" ∷ "blackout" ∷ "alert-delay" ∷ "defaults" ∷ "seed"
    ∷ "watch" ∷ "expect" ∷ []

-- `defaultConfigPath`. On macOS the file in the home directory counts if it is there: `home` is its
-- path then, joined by `filepath.Join`; on Windows `windows` is the path under $ProgramData.
unfoldable pub default_config_path : String → Option String → String → String
default_config_path goos home windows =
    if goos == "darwin"
    then get_or home "/usr/local/etc/photinus/photinus.yml"
    else if goos == "windows"
    then windows
    else "/etc/photinus/photinus.yml"

-- `loadConfig`: the file's bytes, if it can be read, and what the strict decoder makes of them.
pub data Loaded : Type 0 where
  unread : Loaded
  unparsed : Loaded
  parsed_file : FileConfig → Loaded

decoded : Option FileConfig → Loaded
decoded none = unparsed
decoded (some fc) = parsed_file fc

unfoldable pub load_config : (String → Option FileConfig) → Option String → Loaded
unfolding decoded
load_config decode none = unread
load_config decode (some bytes) = decoded (decode bytes)
