-- ===== src/Check/Linux.antt =====
-- The probes of internal/check/probe_linux.go and `statfsToUsage` of probe_unix.go: what they read out of
-- the files of /proc. The files, the clock, statfs and the number of cores are input; the parsers of
-- strconv are a record.

pub mod Net
pub mod Usage
use photinus.Prelude.{
  ℕ, zero, suc, ◌+◌, ◌-◌, ◌*◌, ◌%◌, ◌^◌, String, Bool, true, false, not, ◌&&◌, ◌||◌, Option, none,
  some, List, [], ◌∷◌, pos, ltb, leb, eqb, ◌==◌, ◌!=◌, ◌<>◌, cat, Dict, lookup, insert, any, get_or,
  is_some, length, Time, Duration, second, since, cut, has_char, split, fields, trim_space,
  if◌then◌else◌,
}
use photinus.Check.Floats.{Floats}
use photinus.Check.Local.{
  Reading, unsupported, unreadable, read, DiskUsage, MemUsage, CpuLoad, NetRate,
}

-- A result, or the text of an error.
pub data Result (A : Type 0) : Type 0 where
  err : String → Result A
  found : A → Result A

-- `strconv.ParseUint(s, 10, 64)` and `strconv.ParseFloat(s, 64)`
pub record Numbers (F : Type 0) : Type 0 where
  pub parse_uint : String → Result ℕ
  pub parse_float : String → Result F

abbrev pub word64 : ℕ
word64 = 2 ^ 64

abbrev pub newline : ℕ
newline = 10

-- Where an error ends the function, with words before it.
abbrev pub and_then : {A B : Type 0} → String → Result A → (A → Result B) → Result B
and_then words (err e) f = err (words <> e)
and_then words (found a) f = f a

-- What the check hears of a probe.
abbrev pub reading : {A : Type 0} → Result A → Reading A
reading (err e) = unreadable e
reading (found a) = read a

abbrev first_field : {A : Type 0} → (String → Result A) → Result A → List String → Result A
first_field f otherwise [] = otherwise
first_field f otherwise (w ∷ ws) = f w

-- Every field that is asked for is there.
unfoldable pub all_there : List String → Dict ℕ → Result (Dict ℕ)
all_there [] out = found out
all_there (k ∷ ks) out =
    let rest = all_there ks out in
    if is_some (lookup k out)
    then rest
    else err ("parsing /proc/meminfo: field " <> k <> " missing")

abbrev value_of : String → Dict ℕ → ℕ
value_of k vals = get_or (lookup k vals) 0

-- The total less what is free of it.
abbrev pub used_of : ℕ → ℕ → MemUsage
used_of total free =
    let spare = if ltb total free then total else free in
    record { used_bytes = total - spare; total_bytes = total }

module _ {F : Type 0} (lib : Numbers F) where
  -- The fields that one line adds.
  meminfo_value : String → Dict ℕ → List String → Result (Dict ℕ)
  meminfo_value name out [] = found out
  meminfo_value name out (w ∷ ws) =
      and_then ("parsing /proc/meminfo field " <> name <> ": ") (lib.parse_uint w)
        (λ kb. found (insert name (kb * 1024 % word64) out))

  meminfo_line : List String → String → Dict ℕ → Result (Dict ℕ)
  unfolding meminfo_value
  meminfo_line want line out =
      let (name, rest) = cut b':' line in
      if not (has_char b':' line)
      then found out
      else if not (any (λ k. k == name) want)
      then found out
      else meminfo_value name out (fields rest)

  unfoldable pub meminfo_loop : List String → List String → Dict ℕ → Result (Dict ℕ)
  unfolding meminfo_line
  meminfo_loop want [] out = found out
  meminfo_loop want (line ∷ lines) out =
      and_then "" (meminfo_line want line out) (λ more. meminfo_loop want lines more)

  unfoldable pub parse_meminfo : String → List String → Result (Dict ℕ)
  parse_meminfo data_text want =
      and_then "" (meminfo_loop want (split newline data_text) []) (all_there want)

  -- Kernels before 3.14 have no MemAvailable.
  old_kernel : String → Result MemUsage
  old_kernel text =
      and_then "" (parse_meminfo text ("MemTotal" ∷ "MemFree" ∷ "Buffers" ∷ "Cached" ∷ [])) (λ vals.
        found (
          used_of (value_of "MemTotal" vals) (
            (value_of "MemFree" vals + value_of "Buffers" vals + value_of "Cached" vals) % word64)))

  available : String → Result (Dict ℕ) → Result MemUsage
  unfolding old_kernel
  available text (err e) = old_kernel text
  available text (found vals) =
      found (used_of (value_of "MemTotal" vals) (value_of "MemAvailable" vals))

  unfoldable pub mem_of : String → Result MemUsage
  unfolding available
  mem_of text = available text (parse_meminfo text ("MemTotal" ∷ "MemAvailable" ∷ []))

  -- The file, or the error of reading it.
  unfoldable pub read_mem_usage : Result String → Result MemUsage
  read_mem_usage file = and_then "reading /proc/meminfo: " file mem_of

  unfoldable pub read_swap_usage : Result String → Result MemUsage
  read_swap_usage file = and_then "reading /proc/meminfo: " file (λ text.
      and_then "" (parse_meminfo text ("SwapTotal" ∷ "SwapFree" ∷ []))
        (λ vals. found (used_of (value_of "SwapTotal" vals) (value_of "SwapFree" vals))))

  unfoldable pub host_uptime : Floats F → Result String → Result Duration
  host_uptime fl file = and_then "reading /proc/uptime: " file (λ text.
      first_field
        (λ w.
          and_then "parsing /proc/uptime: " (lib.parse_float w)
            (λ secs. found (fl.nanoseconds (fl.times secs (fl.of second)))))
        (err "parsing /proc/uptime: empty") (fields text))

  -- The one minute load average over the cores.
  unfoldable pub cpu_probe : Floats F → ℕ → Result String → Result (CpuLoad F)
  cpu_probe fl cores file = and_then "reading /proc/loadavg: " file (λ text.
      first_field
        (λ w. and_then "parsing /proc/loadavg: " (lib.parse_float w) (λ load.
          found
            (record { percent = fl.over (fl.times (fl.of 100) load) (fl.of cores); ready = true })))
        (err "parsing /proc/loadavg: empty") (fields text))

-- `statfsToUsage`: what a user can consume.
unfoldable pub statfs_to_usage : {F : Type 0} → Floats F → ℕ → ℕ → ℕ → ℕ → DiskUsage F
statfs_to_usage fl blocks bfree bavail bsize =
    let used = (blocks + word64 - bfree) % word64 in
    let usable = (used + bavail) % word64 in
    record {
      used_percent =
          if ltb 0 usable
          then fl.over (fl.times (fl.of 100) (fl.of used)) (fl.of usable)
          else fl.of 0;
      free_bytes = bavail * bsize % word64;
    }

pub record Statfs : Type 0 where
  pub blocks : ℕ
  pub bfree : ℕ
  pub bavail : ℕ
  pub bsize : ℕ

unfoldable pub read_disk_usage :
    {F : Type 0} → Floats F → String → Result Statfs → Result (DiskUsage F)
read_disk_usage fl path st =
    and_then ("statfs " <> path <> ": ") st
      (λ s. found (statfs_to_usage fl s.blocks s.bfree s.bavail s.bsize))
