-- ===== src/Check/Darwin.antt =====
-- The probes of internal/check/probe_darwin.go: what they read out of the answers of sysctl, route and
-- netstat. The answers, the clock and the number of cores are input; bytes are numbers. The traffic probe
-- keeps its baseline as that of Linux does, with the sample of `sample_of` here.
use photinus.Prelude.{
  ℕ, zero, suc, ◌+◌, ◌-◌, ◌*◌, ◌≡◌, refl, ◌^◌, String, Bool, true, false, not, ◌&&◌, ◌||◌, Option,
  none, some, List, [], ◌∷◌, ℤ, pos, wrap64, ltb, eqb, ◌==◌, ◌<>◌, cat, decimal, length, Time,
  Duration, since, cut, has_char, has_text, split, fields, trim_space, if◌then◌else◌,
}
use photinus.Check.Floats.{Floats}
use photinus.Check.Local.{MemUsage, CpuLoad}
use photinus.Check.Linux.{Result, err, found, Numbers, and_then, newline}
use photinus.Check.Linux.Net.{Counters, Sample}

-- `binary.LittleEndian` of the bytes from a place on.
little_endian : ℕ → List ℕ → ℕ
little_endian zero bytes = 0
little_endian (suc n) [] = 0
little_endian (suc n) (b ∷ bytes) = b + 256 * little_endian n bytes

skip : ℕ → List ℕ → List ℕ
skip zero bytes = bytes
skip (suc n) [] = []
skip (suc n) (b ∷ bytes) = skip n bytes

-- `raw[from:from+width]` as a number.
unfoldable pub word_at : ℕ → ℕ → List ℕ → ℕ
unfolding little_endian skip
word_at from width raw = little_endian width (skip from raw)

-- A struct that is long enough.
long_enough : {A : Type 0} → String → ℕ → List ℕ → Result A → Result A
long_enough name n raw a =
    if ltb (length raw) n
    then err (cat ("parsing " ∷ name ∷ ": got " ∷ decimal (length raw) ∷ " bytes" ∷ []))
    else a

-- `kern.boottime`; `unix` is `time.Unix(sec, 0)`.
unfoldable pub host_uptime : (ℤ → Time) → Time → Result (List ℕ) → Result Duration
unfolding long_enough
host_uptime unix now answer = and_then "reading kern.boottime: " answer (λ raw.
    long_enough "kern.boottime" 12 raw (found (since now (unix (wrap64 (pos (word_at 0 8 raw)))))))

-- The kernel's level of available memory is a uint32 in percent.
unfoldable pub read_mem_usage : {F : Type 0} → Floats F → Result ℕ → Result ℕ → Result MemUsage
read_mem_usage fl level size = and_then "reading kern.memorystatus_level: " level (λ free.
    and_then "reading hw.memsize: " size (λ total.
      let capped = if ltb 100 free then 100 else free in
      found (record {
        used_bytes =
            fl.to_uint64 (fl.times (fl.over (fl.of (100 - capped)) (fl.of 100)) (fl.of total));
        total_bytes = total;
      })))

unfoldable pub read_swap_usage : Result (List ℕ) → Result MemUsage
unfolding long_enough
read_swap_usage answer = and_then "reading vm.swapusage: " answer (λ raw.
    long_enough "vm.swapusage" 24 raw
      (found (record { used_bytes = word_at 16 8 raw; total_bytes = word_at 0 8 raw })))

load_of : {F : Type 0} → Floats F → ℕ → ℕ → ℕ → Result (CpuLoad F)
load_of fl cores load1 fscale =
    if eqb fscale 0
    then err "parsing vm.loadavg: fscale is zero"
    else found (record {
      percent = fl.over (fl.times (fl.of 100) (fl.over (fl.of load1) (fl.of fscale))) (fl.of cores);
      ready = true;
    })

unfoldable pub cpu_probe : {F : Type 0} → Floats F → ℕ → Result (List ℕ) → Result (CpuLoad F)
unfolding long_enough load_of
cpu_probe fl cores answer =
    and_then "reading vm.loadavg: " answer (λ raw.
      long_enough "vm.loadavg" 24 raw (load_of fl cores (word_at 0 4 raw) (word_at 16 8 raw)))

-- The line `interface: en0`.
route_loop : List String → Result String
route_loop [] = err "no interface in route's default answer"
route_loop (line ∷ lines) =
    let rest = route_loop lines in
    let trimmed = trim_space line in
    let (k, v) = cut b':' trimmed in
    if has_char b':' trimmed && k == "interface" then found (trim_space v) else rest

unfoldable pub default_route_iface : Result String → Result String
unfolding route_loop
default_route_iface answer =
    and_then "asking route for the default interface: " answer
      (λ out. route_loop (split newline out))

-- The last column of a name, from the one numbered i on.
unfoldable pub column : String → ℕ → Option ℕ → List String → Option ℕ
column name i at [] = at
column name i at (h ∷ head) = column name (i + 1) (if h == name then some i else at) head

field_at : ℕ → List String → String
field_at n [] = ""
field_at zero (f ∷ fs) = f
field_at (suc n) (f ∷ fs) = field_at n fs

both : Result ℕ → Result ℕ → Option Counters
both (err e) tx = none
both (found rx) (err e) = none
both (found rx) (found tx) = some (record { rx = rx; tx = tx })

module _ {F : Type 0} (lib : Numbers F) where
  -- A row at the link level that lines up with the header, and both of its numbers.
  row_counters : ℕ → ℕ → ℕ → String → Option Counters
  unfolding field_at both
  row_counters ib ob width line =
      let f = fields line in
      if not (has_text line "<Link")
      then none
      else if not (eqb (length f) width)
      then none
      else both (lib.parse_uint (field_at ib f)) (lib.parse_uint (field_at ob f))

  rows_loop : String → ℕ → ℕ → ℕ → List String → Result Counters
  unfolding row_counters
  rows_loop iface ib ob width [] = err ("no link-level counters for " <> iface)
  rows_loop iface ib ob width (line ∷ lines) =
      let rest = rows_loop iface ib ob width lines in
      elim (row_counters ib ob width line) [ none ↦ rest | some c ↦ found c ]

  in_columns : String → Option ℕ → Option ℕ → ℕ → List String → Result Counters
  unfolding rows_loop
  in_columns iface none ob width lines = err "netstat output has no byte columns"
  in_columns iface (some ib) none width lines = err "netstat output has no byte columns"
  in_columns iface (some ib) (some ob) width lines = rows_loop iface ib ob width lines

  in_lines : String → List String → Result Counters
  unfolding in_columns
  in_lines iface [] = err ("netstat said nothing about " <> iface)
  in_lines iface (line ∷ []) = err ("netstat said nothing about " <> iface)
  in_lines iface (header ∷ line ∷ lines) =
      let head = fields header in
      in_columns iface (column "Ibytes" 0 none head) (column "Obytes" 0 none head) (length head)
        (line ∷ lines)

  unfoldable pub read_netstat : String → Result String → Result Counters
  unfolding in_lines
  read_netstat iface answer =
      and_then ("asking netstat about " <> iface <> ": ") answer
        (λ out. in_lines iface (split newline out))

  -- The sample of a run; netstat is asked about the interface that route named.
  unfoldable pub sample_of : Result String → (String → Result String) → Time → Result Sample
  sample_of route netstat now = and_then "" (default_route_iface route) (λ iface.
      and_then "" (read_netstat iface (netstat iface))
        (λ c. found (record { iface = iface; counted = c; now = now })))

en0 : default_route_iface (found "   route to: default\n  interface: en0\n") ≡ found "en0"
unfolding default_route_iface split photinus.Prelude.count_char trim_space cut
en0 = refl
