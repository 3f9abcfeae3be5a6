-- ===== src/Cmd/Watch.antt =====
-- `parseWatches`, `splitThreshold`, `parsePercent` and `validPulseName` of cmd/photinus/run.go: what the
-- watches of the command line ask for. The parsers of Go's library are a record; an error keeps its
-- kind, not its sentence.
pub mod Sound
pub mod Complete
use photinus.Prelude.{
  ℕ, ◌*◌, String, Bool, true, false, not, ◌&&◌, ◌||◌, Option, none, some, List, [], ◌∷◌, ◌++◌, ℤ,
  pos, ltb_ℤ, leb, ltb, eqb, Duration, hour, ◌==◌, ◌!=◌, ◌<>◌, Dict, insert, contains, add, cut,
  cut_last, count_char, has_char, has_prefix, has_text, every, byte_length, trim_prefix, strip,
  get_or, is_some, pos_part, if◌then◌else◌,
}
use photinus.Quorum.{subject}

-- What the watches use of strconv, net and time. `F` stands for Go's float64; a number that is no
-- number fails both of its tests.
pub record Parsers (F : Type 0) : Type 0 where
  pub zero : F
  pub parse_float : String → Option F
  pub is_at_most_zero : F → Bool
  pub is_over_100 : F → Bool
  pub atoi : String → Option ℤ
  pub is_host_port : String → Bool
  pub parse_duration : String → Option Duration

pub data WatchError : Type 0 where
  bad_address needs_url bad_day_count needs_host bad_threshold needs_path bad_duration : WatchError
  bad_rate bad_name own_name bad_window unknown_check : WatchError

pub data Parsed {ℓ} (A : Type ℓ) : Type ℓ where
  refused : WatchError → Parsed A
  parsed : A → Parsed A

abbrev pub and_then : {A B : Type 0} → Parsed A → (A → Parsed B) → Parsed B
and_then (refused e) f = refused e
and_then (parsed a) f = f a

-- A check to run; zero thresholds mean the check's own default.
pub data Watched (F : Type 0) : Type 0 where
  tcp : String → Watched F
  http : String → Watched F
  cert : String → Duration → Watched F
  disk : String → String → F → Watched F
  cpu : String → F → Watched F
  memory : String → F → Watched F
  swap : String → F → Watched F
  uptime : String → Duration → Watched F
  net : String → F → Watched F

module _ {F : Type 0} where
  -- `Name` and `Target` of the checks.
  abbrev pub name_of : Watched F → String
  name_of (tcp addr) = "tcp"
  name_of (http url) = "http"
  name_of (cert addr within) = "cert"
  name_of (disk host path max) = "disk:" <> path
  name_of (cpu host max) = "cpu"
  name_of (memory host max) = "memory"
  name_of (swap host max) = "swap"
  name_of (uptime host min) = "uptime"
  name_of (net host max) = "net"

  abbrev pub target_of : Watched F → String
  target_of (tcp addr) = addr
  target_of (http url) = url
  target_of (cert addr within) = addr
  target_of (disk host path max) = host
  target_of (cpu host max) = host
  target_of (memory host max) = host
  target_of (swap host max) = host
  target_of (uptime host min) = host
  target_of (net host max) = host

-- What one watch asks for.
pub data Item (F : Type 0) : Type 0 where
  a_check : Watched F → Item F
  a_pulse : String → Duration → Item F

-- The key under which the item's subject is critical.
abbrev pub item_subject : {F : Type 0} → Item F → String
item_subject (a_check c) = subject (name_of c) (target_of c)
item_subject (a_pulse name window) = subject "pulse" name

-- Letters, digits, dot, dash and underscore.
abbrev pub is_name_char : ℕ → Bool
is_name_char r =
    leb b'a' r && leb r b'z'
    || leb b'A' r && leb r b'Z'
    || leb b'0' r && leb r b'9'
    || eqb r b'.'
    || eqb r b'-'
    || eqb r b'_'

unfoldable pub valid_pulse_name : String → Bool
valid_pulse_name name = not (name == "" || ltb 100 (byte_length name)) && every is_name_char name

-- A bare url, one whose scheme was cut off, or a full one after `http:`.
abbrev full_url : String → String → String
full_url kind u =
    if has_prefix u "//"
    then kind <> ":" <> u
    else if not (has_text u "://")
    then "https://" <> u
    else u

module _ {F : Type 0} (lib : Parsers F) where
  abbrev pub is_percent : F → Bool
  is_percent f = not (lib.is_at_most_zero f) && not (lib.is_over_100 f)

  -- The tail after the last colon, as a threshold: no number means that there is none.
  threshold_of : String → String × String → Option F → Parsed (String × F)
  threshold_of rest at none = parsed (rest, lib.zero)
  threshold_of rest (path, tail) (some pct) =
      if is_percent pct then parsed (path, pct) else refused bad_threshold

  tail_threshold : String → Option (String × String) → Parsed (String × F)
  unfolding threshold_of
  tail_threshold rest none = parsed (rest, lib.zero)
  tail_threshold rest (some (path, tail)) = threshold_of rest (path, tail) (lib.parse_float tail)

  unfoldable pub split_threshold : String → Parsed (String × F)
  unfolding tail_threshold
  split_threshold rest = tail_threshold rest (cut_last b':' rest)

  percent_of : Option F → Parsed F
  percent_of none = refused bad_threshold
  percent_of (some pct) = if is_percent pct then parsed pct else refused bad_threshold

  unfoldable pub parse_percent : String → Parsed F
  unfolding percent_of
  parse_percent rest = if rest == "" then parsed lib.zero else percent_of (lib.parse_float rest)

  rate_of : Option F → Parsed F
  rate_of none = refused bad_rate
  rate_of (some v) = if lib.is_at_most_zero v then refused bad_rate else parsed v

  duration_of : Option Duration → Parsed Duration
  duration_of none = refused bad_duration
  duration_of (some d) = parsed d

  window_of : Option Duration → Parsed Duration
  window_of none = refused bad_window
  window_of (some d) = if ltb_ℤ (pos 0) d then parsed d else refused bad_window

  days_of : String → Option ℤ → Parsed (String × Duration)
  days_of addr none = refused bad_day_count
  days_of addr (some d) =
      if ltb_ℤ (pos 0) d && not (ltb_ℤ (pos 365) d)
      then parsed (addr, pos (pos_part d * (24 * hour)))
      else refused bad_day_count

  -- The address and the day count, which only a text with two colons has.
  cert_parts : String → Option (String × String) → Parsed (String × Duration)
  unfolding days_of
  cert_parts rest none = parsed (rest, pos 0)
  cert_parts rest (some (addr, days)) =
      if leb 2 (count_char b':' rest) then days_of addr (lib.atoi days) else parsed (rest, pos 0)

  -- `check.Cert`, once the address has a port.
  cert_at : String × Duration → Parsed (Item F)
  cert_at (addr, within) =
      let full = if has_char b':' addr then addr else addr <> ":443" in
      if addr == ""
      then refused needs_host
      else if lib.is_host_port full
      then parsed (a_check (cert full within))
      else refused bad_address

  http_at : String → Parsed (Item F)
  http_at u =
      if trim_prefix (trim_prefix u "https://") "http://" == ""
      then refused needs_url
      else parsed (a_check (http u))

  disk_at : String → String × F → Parsed (Item F)
  disk_at id (path, pct) =
      if path == "" then refused needs_path else parsed (a_check (disk id path pct))

  pulse_at : String → String × String → Parsed (Item F)
  unfolding window_of
  pulse_at id (name, win) =
      if not (valid_pulse_name name)
      then refused bad_name
      else if name == id
      then refused own_name
      else if win == ""
      then parsed (a_pulse name (pos (25 * hour)))
      else and_then (window_of (lib.parse_duration win)) (λ d. parsed (a_pulse name d))

  -- The cases on the kind of watch.
  parse_kind : String → String → String → Parsed (Item F)
  unfolding cert_parts cert_at http_at disk_at pulse_at rate_of duration_of
  parse_kind id kind rest =
      if kind == "tcp"
      then if lib.is_host_port rest then parsed (a_check (tcp rest)) else refused bad_address
      else if kind == "http" || kind == "https"
      then http_at (full_url kind rest)
      else if kind == "cert"
      then and_then (cert_parts rest (cut_last b':' rest)) cert_at
      else if kind == "disk"
      then and_then (split_threshold rest) (disk_at id)
      else if kind == "cpu"
      then and_then (parse_percent rest) (λ pct. parsed (a_check (cpu id pct)))
      else if kind == "memory"
      then and_then (parse_percent rest) (λ pct. parsed (a_check (memory id pct)))
      else if kind == "swap"
      then and_then (parse_percent rest) (λ pct. parsed (a_check (swap id pct)))
      else if kind == "uptime"
      then and_then (if rest == "" then parsed (pos 0) else duration_of (lib.parse_duration rest))
          (λ min. parsed (a_check (uptime id min)))
      else if kind == "net"
      then and_then (if rest == "" then parsed lib.zero else rate_of (lib.parse_float rest))
          (λ mbit. parsed (a_check (net id mbit)))
      else if kind == "pulse"
      then pulse_at id (cut b':' rest)
      else refused unknown_check

  abbrev pub is_critical : String → Bool
  is_critical w = has_prefix w "critical:"

  unfoldable pub parse_item : String → String → Parsed (Item F)
  unfolding parse_kind
  parse_item id w =
      let (kind, rest) = cut b':' (trim_prefix w "critical:") in parse_kind id kind rest

-- What all watches come to.
pub record Watches (F : Type 0) : Type 0 where
  pub checks : List (Watched F)
  pub pulses : Dict Duration
  pub critical : Dict Bool

abbrev no_watches : {F : Type 0} → Watches F
no_watches = record { checks = []; pulses = []; critical = [] }

module _ {F : Type 0} where
  unfoldable pub mark : Bool → String → Watches F → Watches F
  mark crit subject ws =
      if crit then record ws { critical = insert subject true ws.critical } else ws

  -- A check joins the list, a pulse the map.
  unfoldable pub file_item : Item F → Watches F → Watches F
  file_item (a_check c) ws = record ws { checks = ws.checks ++ c ∷ [] }
  file_item (a_pulse name window) ws = record ws { pulses = insert name window ws.pulses }

  abbrev pub add_item : Bool → Item F → Watches F → Watches F
  add_item crit item ws = mark crit (item_subject item) (file_item item ws)

module _ {F : Type 0} (lib : Parsers F) (id : String) where
  -- The loop over the watches; the first error ends it.
  unfoldable pub watch_loop : List String → Watches F → Parsed (Watches F)
  watch_loop [] ws = parsed ws
  watch_loop (w ∷ rest) ws =
      and_then (parse_item lib id w)
        (λ item. watch_loop rest (add_item (is_critical lib w) item ws))

  unfoldable pub parse_watches : List String → Parsed (Watches F)
  unfolding watch_loop
  parse_watches watches = watch_loop watches no_watches
