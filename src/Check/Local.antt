-- ===== src/Check/Local.antt =====
-- The checks of a host's own state: `Run` of internal/check/cpu.go, disk.go, memory.go, swap.go, net.go
-- and uptime.go. What the platform's probe answers, and the number of cores, are input.
pub mod Tame
pub mod Line
pub mod Warns
use photinus.Prelude.{
  ℕ, ◌*◌, String, Bool, true, false, Option, none, some, List, [], ◌∷◌, ℤ, pos, ltb_ℤ, leb_ℤ, eqb,
  ◌<>◌, cat, decimal, decimal_ℤ, Duration, second, minute, hour, get_or, if◌then◌else◌,
}
use photinus.Lantern.State.{Verdict, ok, warn, failed, not_applicable}
use photinus.Lantern.Flash.{CheckResult}
use photinus.Check.Floats.{Floats, hysteresis, max_or, clear_of}
use photinus.Check.Size.{human_bytes}

-- What a probe answers: `errUnsupported`, another error with its text, or a value.
pub data Reading (A : Type 0) : Type 0 where
  unsupported : Reading A
  unreadable : String → Reading A
  read : A → Reading A

-- A check with a threshold: `CPU`, `Memory`, `Swap` and `Net` have these fields.
pub record Gauge (F : Type 0) : Type 0 where
  pub host : String
  pub max : F
  pub warned : Bool

pub record Disk (F : Type 0) : Type 0 where
  pub host : String
  pub path : String
  pub max : F
  pub warned : Bool

pub record Uptime : Type 0 where
  pub host : String
  pub min : Duration

pub record DiskUsage (F : Type 0) : Type 0 where
  pub used_percent : F
  pub free_bytes : ℕ

-- `memUsage` and `swapUsage`
pub record MemUsage : Type 0 where
  pub used_bytes : ℕ
  pub total_bytes : ℕ

-- The load, and whether it can be told yet.
pub record CpuLoad (F : Type 0) : Type 0 where
  pub percent : F
  pub ready : Bool

pub record NetRate (F : Type 0) : Type 0 where
  pub rx : F
  pub tx : F
  pub iface : String
  pub ready : Bool

abbrev pub said : Verdict → String → CheckResult
said v text = record { verdict = v; detail = text; addr = "" }

abbrev spoken : Bool → String → String → CheckResult
spoken warned warning fine = if warned then said warn warning else said ok fine

module _ {F : Type 0} (fl : Floats F) where
  -- The text of a byte count; a panic has none.
  unfoldable pub bytes : ℕ → String
  bytes n = get_or (human_bytes fl n) ""

  unfoldable pub human_rate : F → String
  human_rate bps = bytes (fl.to_uint64 (if fl.is_over (fl.of 0) bps then fl.of 0 else bps)) <> "/s"

  -- One unit, no arithmetic left to the reader.
  unfoldable pub human_duration : Duration → String
  human_duration d =
      if leb_ℤ (pos (48 * hour)) d
      then decimal_ℤ (fl.to_int (fl.over (fl.hours d) (fl.of 24))) <> " days"
      else if leb_ℤ (pos (2 * hour)) d
      then decimal_ℤ (fl.to_int (fl.hours d)) <> " hours"
      else if leb_ℤ (pos (2 * minute)) d
      then decimal_ℤ (fl.to_int (fl.minutes d)) <> " minutes"
      else fl.rounded d (pos second)

  -- The share in use; nothing of nothing is in use.
  unfoldable pub used_percent : MemUsage → F
  used_percent m =
      if eqb m.total_bytes 0
      then fl.of 0
      else fl.over (fl.times (fl.of 100) (fl.of m.used_bytes)) (fl.of m.total_bytes)

  percent : F → String
  percent f = fl.fixed 0 f <> "%"

  clears : F → F → String
  unfolding percent
  clears max clear = cat (", threshold is " ∷ percent max ∷ ", clears below " ∷ percent clear ∷ [])

  -- The gauge with what the new value makes of its warning.
  abbrev judged : Gauge F → F → F → F → Gauge F
  judged g value max clear = record g { warned = hysteresis fl g.warned value max clear }

  unfoldable pub run_cpu : ℕ → Gauge F → Reading (CpuLoad F) → CheckResult × Gauge F
  unfolding percent clears
  run_cpu cores g unsupported =
      (said not_applicable "cpu usage cannot be read on this platform yet", g)
  run_cpu cores g (unreadable e) = (said not_applicable ("cannot read cpu usage: " <> e), g)
  run_cpu cores g (read u) =
      let max = max_or fl 95 g.max in
      let clear = clear_of fl max in
      let after = judged g u.percent max clear in
      let load =
        cat ("cpu load is " ∷ percent u.percent ∷ " of " ∷ decimal cores ∷ " cores" ∷ []) in
      if u.ready
      then (spoken after.warned (load <> clears max clear) load, after)
      else (said ok "cpu measurement warming up, first verdict next flash", g)

  unfoldable pub run_memory : Gauge F → Reading MemUsage → CheckResult × Gauge F
  unfolding percent clears
  run_memory g unsupported =
      (said not_applicable "memory usage cannot be read on this platform yet", g)
  run_memory g (unreadable e) = (said not_applicable ("cannot read memory usage: " <> e), g)
  run_memory g (read u) =
      let max = max_or fl 95 g.max in
      let clear = clear_of fl max in
      let pct = used_percent u in
      let after = judged g pct max clear in
      let detail = cat (
        "memory is "
        ∷ percent pct
        ∷ " used, "
        ∷ bytes u.used_bytes
        ∷ " of "
        ∷ bytes u.total_bytes
        ∷ []) in
      (spoken after.warned (detail <> clears max clear) detail, after)

  unfoldable pub run_swap : Gauge F → Reading MemUsage → CheckResult × Gauge F
  unfolding percent clears
  run_swap g unsupported = (said not_applicable "swap usage cannot be read on this platform yet", g)
  run_swap g (unreadable e) = (said not_applicable ("cannot read swap usage: " <> e), g)
  run_swap g (read u) =
      let max = max_or fl 80 g.max in
      let clear = clear_of fl max in
      let pct = fl.over (fl.times (fl.of 100) (fl.of u.used_bytes)) (fl.of u.total_bytes) in
      let after = judged g pct max clear in
      let detail = cat (
        "swap is "
        ∷ percent pct
        ∷ " used, "
        ∷ bytes u.used_bytes
        ∷ " of "
        ∷ bytes u.total_bytes
        ∷ []) in
      if eqb u.total_bytes 0
      then (said ok "no swap configured", g)
      else (spoken after.warned (detail <> clears max clear) detail, after)

  -- The line under which a warning of the net check clears.
  abbrev pub net_clear : F → F
  net_clear max = fl.times fl.point_85 max

  -- The rate in Mbit/s, in and out.
  abbrev pub mbit : NetRate F → F
  mbit u = fl.over (fl.times (fl.plus u.rx u.tx) (fl.of 8)) (fl.of 1000000)

  unfoldable pub run_net : Gauge F → Reading (NetRate F) → CheckResult × Gauge F
  run_net g unsupported =
      (said not_applicable "network rate cannot be read on this platform yet", g)
  run_net g (unreadable e) = (said not_applicable ("cannot read network rate: " <> e), g)
  run_net g (read u) =
      let after = judged g (mbit u) g.max (net_clear g.max) in
      let detail =
        cat ("net is " ∷ human_rate u.rx ∷ " in, " ∷ human_rate u.tx ∷ " out on " ∷ u.iface ∷ []) in
      let warning = cat (
        detail
        ∷ ", "
        ∷ fl.fixed 0 (mbit u)
        ∷ " Mbit/s combined, threshold is "
        ∷ fl.fixed 0 g.max
        ∷ ", clears below "
        ∷ fl.fixed 0 (net_clear g.max)
        ∷ []) in
      if u.ready
      then (if fl.is_over g.max (fl.of 0)
          then (spoken after.warned warning detail, after)
          else (said ok detail, g))
      else (said ok "network measurement warming up, first rate next flash", g)

  unfoldable pub run_disk : Disk F → Reading (DiskUsage F) → CheckResult × Disk F
  unfolding percent clears
  run_disk d unsupported = (said not_applicable "disk usage cannot be read on this platform yet", d)
  run_disk d (unreadable e) =
      (said not_applicable (cat ("cannot read disk usage of " ∷ d.path ∷ ": " ∷ e ∷ [])), d)
  run_disk d (read u) =
      let max = max_or fl 90 d.max in
      let clear = clear_of fl max in
      let warned = hysteresis fl d.warned u.used_percent max clear in
      let full = cat (
        "disk " ∷ d.path ∷ " is " ∷ percent u.used_percent ∷ " full, " ∷ bytes u.free_bytes ∷ []) in
      (
        spoken warned (full <> " left" <> clears max clear) (full <> " free"),
        record d { warned = warned },
      )

  unfoldable pub run_uptime : Uptime → Reading Duration → CheckResult
  run_uptime u unsupported = said not_applicable "uptime cannot be read on this platform yet"
  run_uptime u (unreadable e) = said not_applicable ("cannot read uptime: " <> e)
  run_uptime u (read up) =
      let min = if leb_ℤ u.min (pos 0) then pos (3 * minute) else u.min in
      if ltb_ℤ up min
      then said warn (cat ("host rebooted " ∷ fl.rounded up (pos second) ∷ " ago" ∷ []))
      else said ok ("up for " <> human_duration up)
