-- ===== src/Check/Local/Tame.antt =====
-- The checks of a host's own state never take the lantern down.
use photinus.Prelude.{◌≡◌, refl, arith, ℕ, String, Bool, true, false, Duration, if◌then◌else◌}
use photinus.Lantern.Flash.{CheckResult, is_failed}
use photinus.Check.Floats.{Floats}
use photinus.Check.Local.{
  Reading, unsupported, unreadable, read, Gauge, Disk, Uptime, DiskUsage, MemUsage, CpuLoad,
  NetRate, spoken, run_cpu, run_memory, run_swap, run_net, run_disk, run_uptime,
}

abbrev pub Spares : CheckResult → Type 0
Spares r = is_failed r.verdict ≡ false

spoken-Spares : (warned : Bool) (warning fine : String) → Spares (spoken warned warning fine)
spoken-Spares true warning fine = refl
spoken-Spares false warning fine = refl

either-Spares : (b : Bool) (r s : CheckResult) → Spares r → Spares s → Spares (if b then r else s)
either-Spares true r s p q = p
either-Spares false r s p q = q

module _ {F : Type 0} (fl : Floats F) where
  cpu-Spares : (cores : ℕ) (g : Gauge F) (r : Reading (CpuLoad F)) → Spares (run_cpu fl cores g r).0
  unfolding run_cpu
  cpu-Spares cores g unsupported = refl
  cpu-Spares cores g (unreadable e) = refl
  cpu-Spares cores g (read u) = ground arith

  memory-Spares : (g : Gauge F) (r : Reading MemUsage) → Spares (run_memory fl g r).0
  unfolding run_memory
  memory-Spares g unsupported = refl
  memory-Spares g (unreadable e) = refl
  memory-Spares g (read u) = ground arith

  swap-Spares : (g : Gauge F) (r : Reading MemUsage) → Spares (run_swap fl g r).0
  unfolding run_swap
  swap-Spares g unsupported = refl
  swap-Spares g (unreadable e) = refl
  swap-Spares g (read u) = ground arith

  net-Spares : (g : Gauge F) (r : Reading (NetRate F)) → Spares (run_net fl g r).0
  unfolding run_net
  net-Spares g unsupported = refl
  net-Spares g (unreadable e) = refl
  net-Spares g (read u) = ground arith

  disk-Spares : (d : Disk F) (r : Reading (DiskUsage F)) → Spares (run_disk fl d r).0
  unfolding run_disk
  disk-Spares d unsupported = refl
  disk-Spares d (unreadable e) = refl
  disk-Spares d (read u) = ground arith

  uptime-Spares : (u : Uptime) (r : Reading Duration) → Spares (run_uptime fl u r)
  unfolding run_uptime
  uptime-Spares u unsupported = refl
  uptime-Spares u (unreadable e) = refl
  uptime-Spares u (read up) = ground arith

  -- Whatever their probes answer, the checks of a host's own state never report that it failed.
  pub local_checks_spare :
      (cores : ℕ) (g : Gauge F) (d : Disk F) (u : Uptime) (c : Reading (CpuLoad F))
      (m : Reading MemUsage) (n : Reading (NetRate F)) (e : Reading (DiskUsage F))
      (t : Reading Duration)
      → Spares (run_cpu fl cores g c).0
        × Spares (run_memory fl g m).0
        × Spares (run_swap fl g m).0
        × Spares (run_net fl g n).0
        × Spares (run_disk fl d e).0
        × Spares (run_uptime fl u t)
  local_checks_spare cores g d u c m n e t = (
    cpu-Spares cores g c,
    memory-Spares g m,
    swap-Spares g m,
    net-Spares g n,
    disk-Spares d e,
    uptime-Spares u t,
  )
