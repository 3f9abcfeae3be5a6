-- ===== src/Check/Linux/Usage.antt =====
-- The memory and swap that the Linux probes report are in use are part of the total.
use photinus.Prelude.{ℕ, ◌≤◌, ◌<◌, String, Dict, lookup, get_or}
use photinus.Check.Local.{MemUsage}
use photinus.Check.Linux.{Result, err, found, word64}

-- A statement about what is found, if anything is.
abbrev pub WhenFound : {A : Type 0} → (A → Type 0) → Result A → Type 0
WhenFound P (err e) = Unit
WhenFound P (found a) = P a

-- The used part is within the total, which is a uint64.
abbrev pub IsWithin : MemUsage → Type 0
IsWithin m = (m.used_bytes ≤ m.total_bytes) × (m.total_bytes < word64)

-- A file has any contents.
Anything : {A : Type 0} → A → Type 0
Anything a = Unit

-- Every value is a uint64.
IsSmall : Dict ℕ → Type 0
IsSmall vals = (k : String) → get_or (lookup k vals) 0 < word64
