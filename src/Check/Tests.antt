-- ===== src/Check/Tests.antt =====
-- The theorems on the checks at concrete inputs.
use photinus.Prelude.{
  ℕ, ◌+◌, ◌-◌, ◌*◌, ◌/◌, ◌%◌, ◌^◌, ◌≤◌, ◌<◌, ◌≡◌, refl, arith, ◌↔◌, String, Bool, true, false, not,
  ◌&&◌, Option, none, some, List, [], ◌∷◌, pos, ltb, leb, eqb, ltb_ℤ, ◌==◌, ◌<>◌, decimal, Time,
  Duration, second, minute, hour, is_some, pos_part, if◌then◌else◌,
}
use photinus.Lantern.State.{warn}
use photinus.Check.Floats.{Floats, hysteresis, max_or, clear_of}
use photinus.Check.Size.{unit, Scale, scale_of, unit_letter, human_bytes}
use photinus.Check.Size.Exact.{IsScaled, scale_of-ends}
use photinus.Check.Local.{
  Reading, unreadable, read, Gauge, Disk, DiskUsage, MemUsage, CpuLoad, NetRate, run_cpu,
  run_memory, run_swap, run_net, run_disk, run_uptime, net_clear,
}
use photinus.Check.Local.Tame.{Spares, local_checks_spare}
use photinus.Check.Local.Line.{Follows}
use photinus.Check.Local.Warns.{
  cpu_value, memory_value, swap_value, net_value, disk_value, with_warning, disk_with,
  line_is_followed,
}
use photinus.Check.Remote.{HostPort, no_host, has_host, Leaf, cert_verdict}
use photinus.Check.Remote.Expiry.{badness, cert_expires_on_time}
use photinus.Check.Linux.{Result, err, found, Numbers, word64, parse_meminfo, read_mem_usage}
use photinus.Check.Linux.Net.{Sample, net_probe}
use photinus.Check.Linux.Net.Rate.{last_sample, base_after, net_probe_tells_growth}

-- Whole numbers in place of floats.
abbrev toy : Floats ℕ
toy = record {
  of = λ n. n;
  point_85 = 1;
  is_over = λ a b. ltb b a;
  is_at_most = leb;
  plus = ◌+◌;
  minus = ◌-◌;
  times = ◌*◌;
  over = λ a b. if eqb b 0 then 0 else a / b;
  to_uint64 = λ n. n;
  to_int = pos;
  fixed = λ digits n. decimal n;
  hours = λ d. pos_part d / hour;
  minutes = λ d. pos_part d / minute;
  seconds = λ d. pos_part d / second;
  nanoseconds = pos;
  rounded = λ d unit. "a while";
}

five_million : human_bytes toy 5000000 ≡ some "4 MiB"
unfolding human_bytes scale_of unit_letter photinus.Check.Size.scale_loop decimal
five_million = refl

scale_of-ends_example : ((scale_of 5000000).rest < unit) × IsScaled 5000000 (scale_of 5000000)
scale_of-ends_example = scale_of-ends 5000000 (omega arith) (omega arith)

abbrev gauge : Gauge ℕ
gauge = record { host = "jawa"; max = 0; warned = false }

abbrev limited : Gauge ℕ
limited = record { host = "jawa"; max = 100; warned = false }

abbrev root : Disk ℕ
root = record { host = "jawa"; path = "/"; max = 0; warned = false }

abbrev load : ℕ → Reading (CpuLoad ℕ)
load n = read (record { percent = n; ready = true })

abbrev memory : Reading MemUsage
memory = read (record { used_bytes = 97; total_bytes = 100 })

abbrev rate : Reading (NetRate ℕ)
rate = read (record { rx = 1; tx = 2; iface = "eth0"; ready = true })

abbrev full : Reading (DiskUsage ℕ)
full = read (record { used_percent = 93; free_bytes = 5000000 })

-- At 90 of 95 the warning stays, since the load has not been at 85 or below.
still_warns : (run_cpu toy 4 (record gauge { warned = true }) (load 90)).0.verdict ≡ warn
unfolding run_cpu hysteresis max_or clear_of
still_warns = refl

local_checks_spare_example :
    Spares (run_cpu toy 4 gauge (load 99)).0
    × Spares (run_memory toy gauge memory).0
    × Spares (run_swap toy gauge memory).0
    × Spares (run_net toy gauge rate).0
    × Spares (run_disk toy root full).0
    × Spares (run_uptime toy (record { host = "jawa"; min = pos 0 }) (unreadable "no such file"))
local_checks_spare_example =
    local_checks_spare toy 4 gauge root (record { host = "jawa"; min = pos 0 }) (load 99) memory
      rate full (unreadable "no such file")

line_is_followed_example :
    Follows toy
      (run_cpu toy 4)
      cpu_value
      (max_or toy 95 100)
      (clear_of toy (max_or toy 95 100))
      (with_warning limited)
      (load 101 ∷ [])
      (load 92)
    × Follows toy
        (run_memory toy)
        (memory_value toy)
        (max_or toy 95 100)
        (clear_of toy (max_or toy 95 100))
        (with_warning limited)
        []
        memory
    × Follows toy
        (run_swap toy)
        (swap_value toy)
        (max_or toy 80 100)
        (clear_of toy (max_or toy 80 100))
        (with_warning limited)
        []
        memory
    × Follows toy
        (run_net toy)
        (net_value toy 100)
        100
        (net_clear toy 100)
        (with_warning limited)
        []
        rate
    × Follows toy
        (run_disk toy)
        disk_value
        (max_or toy 90 0)
        (clear_of toy (max_or toy 90 0))
        (disk_with root)
        []
        full
line_is_followed_example =
    line_is_followed toy 4 limited root (load 101 ∷ []) (load 92) [] memory [] rate [] full

abbrev leaf : Leaf
leaf = record { not_after = 1000 * hour; common_name = ""; organization = "Let's Encrypt" ∷ [] }

cert_expires_on_time_example :
    ((cert_verdict toy leaf (pos (168 * hour)) (900 * hour)).verdict ≡ warn)
    × (badness (cert_verdict toy leaf (pos (168 * hour)) (900 * hour)).verdict
        ≤ badness (cert_verdict toy leaf (pos (168 * hour)) (1000 * hour)).verdict)
cert_expires_on_time_example =
    cert_expires_on_time toy leaf (168 * hour) (omega arith) (900 * hour) (1000 * hour)
      (omega arith)

abbrev ports : String → HostPort
ports s =
    if s == "db:5432"
    then has_host "db"
    else if s == "10.0.0.7:443"
    then has_host "10.0.0.7"
    else no_host "no port"

abbrev numbers : Numbers ℕ
numbers = record {
  parse_uint =
      λ s. if s == "100" then found 100 else if s == "40" then found 40 else err "invalid syntax";
  parse_float = λ s. err "invalid syntax";
}

abbrev meminfo : String
meminfo = "MemTotal:  100 kB\nMemFree:  5 kB\nMemAvailable:   40 kB\n"

sixty :
    read_mem_usage numbers (found meminfo)
    ≡ found (record { used_bytes = 60 * 1024; total_bytes = 100 * 1024 })
unfolding read_mem_usage photinus.Check.Linux.mem_of parse_meminfo photinus.Check.Linux.meminfo_loop
    photinus.Prelude.split photinus.Prelude.count_char photinus.Prelude.any photinus.Prelude.cut
    photinus.Prelude.fields photinus.Prelude.words_from photinus.Check.Linux.all_there
    photinus.Prelude.lookup photinus.Prelude.insert
sixty = refl

abbrev sample : ℕ → ℕ → Sample
sample n seconds = record {
  iface = "eth0";
  counted = record { rx = n; tx = n };
  now = seconds * second;
}

net_probe_tells_growth_example :
    (net_probe toy
      (base_after toy (err "no route" ∷ found (sample 100 10) ∷ []))
      (found (sample 300 12))).0
    ≡ found (record { rx = 100; tx = 100; iface = "eth0"; ready = true })
unfolding last_sample photinus.Prelude.since
net_probe_tells_growth_example =
    net_probe_tells_growth toy (err "no route" ∷ found (sample 100 10) ∷ []) (sample 300 12)
      (tt, ((omega arith, omega arith, omega arith), tt)) (omega arith, omega arith, omega arith)
