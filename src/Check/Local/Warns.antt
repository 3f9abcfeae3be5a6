-- ===== src/Check/Local/Warns.antt =====
-- The checks with a threshold of internal/check warn exactly while what they measured has tripped their
-- line.
use photinus.Prelude.{refl, arith, ℕ, Bool, ◌&&◌, Option, none, some, List, eqb, if◌then◌else◌}
use photinus.Check.Floats.{Floats, max_or, clear_of}
use photinus.Check.Local.Line.{is_warn, Judges, Follows, law-Follows}
use photinus.Check.Local.{
  Reading, unsupported, unreadable, read, Gauge, Disk, DiskUsage, MemUsage, CpuLoad, NetRate,
  used_percent, mbit, net_clear, run_cpu, run_memory, run_swap, run_net, run_disk,
}

module _ {F : Type 0} where
  -- What each check measures, if anything.
  abbrev pub cpu_value : Reading (CpuLoad F) → Option F
  cpu_value unsupported = none
  cpu_value (unreadable e) = none
  cpu_value (read u) = if u.ready then some u.percent else none

  abbrev pub memory_value : Floats F → Reading MemUsage → Option F
  memory_value fl unsupported = none
  memory_value fl (unreadable e) = none
  memory_value fl (read u) = some (used_percent fl u)

  abbrev pub swap_value : Floats F → Reading MemUsage → Option F
  swap_value fl unsupported = none
  swap_value fl (unreadable e) = none
  swap_value fl (read u) = if eqb u.total_bytes 0 then none else some (used_percent fl u)

  abbrev pub net_value : Floats F → F → Reading (NetRate F) → Option F
  net_value fl max unsupported = none
  net_value fl max (unreadable e) = none
  net_value fl max (read u) = if u.ready && fl.is_over max (fl.of 0) then some (mbit fl u) else none

  abbrev pub disk_value : Reading (DiskUsage F) → Option F
  disk_value unsupported = none
  disk_value (unreadable e) = none
  disk_value (read u) = some u.used_percent

module _ {F : Type 0} where
  abbrev pub with_warning : Gauge F → Bool → Gauge F
  with_warning g b = record g { warned = b }

  abbrev pub disk_with : Disk F → Bool → Disk F
  disk_with d b = record d { warned = b }

module _ {F : Type 0} (fl : Floats F) where
  cpu_law :
      (cores : ℕ) (g : Gauge F) (r : Reading (CpuLoad F)) (warned : Bool)
      → Judges fl
          (run_cpu fl cores)
          (cpu_value)
          (max_or fl 95 g.max)
          (clear_of fl (max_or fl 95 g.max))
          (with_warning g)
          r
          warned
          ((cpu_value) r)
  unfolding run_cpu is_warn
  cpu_law cores g unsupported warned = (refl, refl)
  cpu_law cores g (unreadable e) warned = (refl, refl)
  cpu_law cores g (read u) warned = ground arith

  memory_law :
      (g : Gauge F) (r : Reading MemUsage) (warned : Bool)
      → Judges fl
          (run_memory fl)
          (memory_value fl)
          (max_or fl 95 g.max)
          (clear_of fl (max_or fl 95 g.max))
          (with_warning g)
          r
          warned
          ((memory_value fl) r)
  unfolding run_memory is_warn
  memory_law g unsupported warned = (refl, refl)
  memory_law g (unreadable e) warned = (refl, refl)
  memory_law g (read u) warned = ground arith

  swap_law :
      (g : Gauge F) (r : Reading MemUsage) (warned : Bool)
      → Judges fl
          (run_swap fl)
          (swap_value fl)
          (max_or fl 80 g.max)
          (clear_of fl (max_or fl 80 g.max))
          (with_warning g)
          r
          warned
          ((swap_value fl) r)
  unfolding run_swap is_warn used_percent
  swap_law g unsupported warned = (refl, refl)
  swap_law g (unreadable e) warned = (refl, refl)
  swap_law g (read u) warned = ground arith

  net_law :
      (g : Gauge F) (r : Reading (NetRate F)) (warned : Bool)
      → Judges fl
          (run_net fl)
          (net_value fl g.max)
          (g.max)
          (net_clear fl g.max)
          (with_warning g)
          r
          warned
          ((net_value fl g.max) r)
  unfolding run_net is_warn
  net_law g unsupported warned = (refl, refl)
  net_law g (unreadable e) warned = (refl, refl)
  net_law g (read u) warned = ground arith

  disk_law :
      (d : Disk F) (r : Reading (DiskUsage F)) (warned : Bool)
      → Judges fl
          (run_disk fl)
          (disk_value)
          (max_or fl 90 d.max)
          (clear_of fl (max_or fl 90 d.max))
          (disk_with d)
          r
          warned
          ((disk_value) r)
  unfolding run_disk is_warn
  disk_law d unsupported warned = (refl, refl)
  disk_law d (unreadable e) warned = (refl, refl)
  disk_law d (read u) warned = ground arith

  -- The cpu, memory, swap, net and disk checks, started without a warning, warn in a run exactly when the
  -- run measured a value and some value so far was over the threshold with none since at or under the
  -- clear line. Runs that measure nothing (an error, a counter that warms up, no swap, no limit on the
  -- rate) do not warn and change nothing.
  pub line_is_followed :
      (cores : ℕ) (g : Gauge F) (d : Disk F) (cs : List (Reading (CpuLoad F)))
      (c : Reading (CpuLoad F)) (ms : List (Reading MemUsage)) (m : Reading MemUsage)
      (ns : List (Reading (NetRate F))) (n : Reading (NetRate F))
      (ds : List (Reading (DiskUsage F))) (e : Reading (DiskUsage F))
      → Follows fl
          (run_cpu fl cores)
          cpu_value
          (max_or fl 95 g.max)
          (clear_of fl (max_or fl 95 g.max))
          (with_warning g)
          cs
          c
        × Follows fl
            (run_memory fl)
            (memory_value fl)
            (max_or fl 95 g.max)
            (clear_of fl (max_or fl 95 g.max))
            (with_warning g)
            ms
            m
        × Follows fl
            (run_swap fl)
            (swap_value fl)
            (max_or fl 80 g.max)
            (clear_of fl (max_or fl 80 g.max))
            (with_warning g)
            ms
            m
        × Follows fl
            (run_net fl)
            (net_value fl g.max)
            g.max
            (net_clear fl g.max)
            (with_warning g)
            ns
            n
        × Follows fl
            (run_disk fl)
            disk_value
            (max_or fl 90 d.max)
            (clear_of fl (max_or fl 90 d.max))
            (disk_with d)
            ds
            e
  line_is_followed cores g d cs c ms m ns n ds e = (
    law-Follows fl (run_cpu fl cores) cpu_value (max_or fl 95 g.max)
        (clear_of fl (max_or fl 95 g.max)) (with_warning g) (cpu_law cores g) cs c,
    law-Follows fl (run_memory fl) (memory_value fl) (max_or fl 95 g.max)
        (clear_of fl (max_or fl 95 g.max)) (with_warning g) (memory_law g) ms m,
    law-Follows fl (run_swap fl) (swap_value fl) (max_or fl 80 g.max)
        (clear_of fl (max_or fl 80 g.max)) (with_warning g) (swap_law g) ms m,
    law-Follows fl (run_net fl) (net_value fl g.max) g.max (net_clear fl g.max) (with_warning g)
        (net_law g) ns n,
    law-Follows fl (run_disk fl) disk_value (max_or fl 90 d.max) (clear_of fl (max_or fl 90 d.max))
        (disk_with d) (disk_law d) ds e,
  )
