-- ===== src/Check/Linux/Net.antt =====
-- The traffic probe of internal/check/probe_linux.go: `newNetProbe`, `defaultRouteIface` and
-- `readNetDev`. The variables that the closure keeps are a record.
pub mod Rate
use photinus.Prelude.{
  ℕ, zero, suc, ◌+◌, ◌-◌, ◌*◌, ◌%◌, ◌^◌, String, Bool, true, false, not, ◌&&◌, ◌||◌, Option, none,
  some, List, [], ◌∷◌, pos, ltb, leb, eqb, ◌==◌, ◌!=◌, ◌<>◌, cat, Dict, lookup, insert, any, get_or,
  is_some, length, Time, Duration, second, since, cut, has_char, split, fields, trim_space,
  if◌then◌else◌,
}
use photinus.Check.Floats.{Floats}
use photinus.Check.Local.{NetRate}
use photinus.Check.Linux.{Result, err, found, Numbers, and_then, word64, newline}

-- The second field of a line is 0.0.0.0, and the first names the interface.
default_of : List String → Option String
default_of [] = none
default_of (f ∷ []) = none
default_of (f ∷ destination ∷ rest) = if destination == "00000000" then some f else none

route_loop : List String → Result String
unfolding default_of
route_loop [] = err "no default route in /proc/net/route"
route_loop (line ∷ lines) =
    let rest = route_loop lines in
    elim (default_of (fields line)) [ none ↦ rest | some iface ↦ found iface ]

-- `lines[1:]`
abbrev pub after_head : List String → List String
after_head [] = []
after_head (head ∷ lines) = lines

unfoldable pub default_route_iface : Result String → Result String
unfolding route_loop
default_route_iface file =
    and_then "reading /proc/net/route: " file (λ text. route_loop (after_head (split newline text)))

-- The counters of the interface.
pub record Counters : Type 0 where
  pub rx : ℕ
  pub tx : ℕ

-- `f[n]`, which is there.
nth : ℕ → List String → String
nth n [] = ""
nth zero (w ∷ ws) = w
nth (suc n) (w ∷ ws) = nth n ws

module _ {F : Type 0} (lib : Numbers F) where
  counters : String → List String → Result Counters
  unfolding nth
  counters iface f =
      if ltb (length f) 9
      then err ("parsing /proc/net/dev: short line for " <> iface)
      else and_then "parsing /proc/net/dev: " (lib.parse_uint (nth 0 f)) (λ rx.
        and_then "parsing /proc/net/dev: " (lib.parse_uint (nth 8 f))
          (λ tx. found (record { rx = rx; tx = tx })))

  dev_loop : String → List String → Result Counters
  unfolding counters
  dev_loop iface [] = err ("interface " <> iface <> " not in /proc/net/dev")
  dev_loop iface (line ∷ lines) =
      let rest = dev_loop iface lines in
      let (name, stats) = cut b':' line in
      if has_char b':' line && trim_space name == iface then counters iface (fields stats) else rest

  unfoldable pub read_net_dev : String → Result String → Result Counters
  unfolding dev_loop
  read_net_dev iface file =
      and_then "reading /proc/net/dev: " file (λ text. dev_loop iface (split newline text))

-- The variables of the closure that `newNetProbe` returns; the zero time is no time.
pub record NetBase : Type 0 where
  pub prev_rx : ℕ
  pub prev_tx : ℕ
  pub prev_at : Time
  pub prev_iface : String

abbrev pub fresh_base : NetBase
fresh_base = record { prev_rx = 0; prev_tx = 0; prev_at = 0; prev_iface = "" }

-- What the files say at one run, and when.
pub record Sample : Type 0 where
  pub iface : String
  pub counted : Counters
  pub now : Time

-- Same interface, a baseline, and no counter that went back.
abbrev pub is_usable : NetBase → Sample → Bool
is_usable b s =
    b.prev_iface == s.iface
    && not (eqb b.prev_at 0)
    && leb b.prev_rx s.counted.rx
    && leb b.prev_tx s.counted.tx

abbrev pub base_of : Sample → NetBase
base_of s = record {
  prev_rx = s.counted.rx;
  prev_tx = s.counted.tx;
  prev_at = s.now;
  prev_iface = s.iface;
}

abbrev pub no_rate : {F : Type 0} → Floats F → String → NetRate F
no_rate fl iface = record { rx = fl.of 0; tx = fl.of 0; iface = iface; ready = false }

module _ {F : Type 0} (fl : Floats F) where
  -- The counters' difference is that of uint64s.
  abbrev pub delta : ℕ → ℕ → ℕ
  delta after before = (after + word64 - before) % word64

  rate_since : NetBase → Sample → NetRate F
  rate_since b s =
      let dt = fl.seconds (since s.now b.prev_at) in
      if not (is_usable b s) || fl.is_at_most dt (fl.of 0) then no_rate fl s.iface else record {
        rx = fl.over (fl.of (delta s.counted.rx b.prev_rx)) dt;
        tx = fl.over (fl.of (delta s.counted.tx b.prev_tx)) dt;
        iface = s.iface;
        ready = true;
      }

  -- One run: an error leaves the baseline, any sample becomes the next one.
  unfoldable pub net_probe : NetBase → Result Sample → Result (NetRate F) × NetBase
  unfolding rate_since
  net_probe b (err e) = (err e, b)
  net_probe b (found s) = (found (rate_since b s), base_of s)

-- The sample of a run, from the two files: the route's first.
unfoldable pub sample_of :
    {F : Type 0} → Numbers F → Result String → Result String → Time → Result Sample
sample_of lib route dev now = and_then "" (default_route_iface route) (λ iface.
    and_then "" (read_net_dev lib iface dev)
      (λ c. found (record { iface = iface; counted = c; now = now })))
