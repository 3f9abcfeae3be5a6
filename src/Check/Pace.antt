-- ===== src/Check/Pace.antt =====
-- `Every` of the checks of internal/check (tcp.go, http.go and cert.go have one), the name of a verdict
-- in check.go, and the probes of a platform that has none (probe_unsupported.go).
use photinus.Prelude.{◌*◌, String, Option, none, some, pos, Duration, minute, hour}
use photinus.Lantern.State.{Verdict, ok, warn, failed, not_applicable}
use photinus.Cmd.Watch.{Watched, tcp, http, cert, disk, cpu, memory, swap, uptime, net}

-- `Verdict.String`
unfoldable pub verdict_string : Verdict → String
verdict_string ok = "ok"
verdict_string warn = "warning"
verdict_string failed = "failed"
verdict_string not_applicable = "not applicable"

-- The interval of a `Paced` check; the others run every flash.
unfoldable pub every_of : {F : Type 0} → Watched F → Option Duration
every_of (tcp addr) = some (pos (5 * minute))
every_of (http url) = some (pos (5 * minute))
every_of (cert addr within) = some (pos hour)
every_of (disk host path max) = none
every_of (cpu host max) = none
every_of (memory host max) = none
every_of (swap host max) = none
every_of (uptime host min) = none
every_of (net host max) = none
