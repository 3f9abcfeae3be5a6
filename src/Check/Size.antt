-- ===== src/Check/Size.antt =====
-- `humanBytes` of internal/check/check.go. A byte count is a uint64.
pub mod Exact
use photinus.Prelude.{
  ℕ, zero, suc, ◌+◌, ◌-◌, ◌*◌, ◌/◌, ◌%◌, ◌^◌, ◌≤◌, ◌<◌, ◌≡◌, refl, arith, inl, inr, String, Option,
  none, some, List, [], ◌∷◌, Bool-cases, leb, ltb, ◌<>◌, decimal, get_or, if◌then◌else◌,
}
use photinus.Check.Floats.{Floats}

abbrev pub unit : ℕ
unit = 1024

-- The variables of the loop: what is left of the count, the divisor, and the unit's index.
pub record Scale : Type 0 where
  pub rest : ℕ
  pub div : ℕ
  pub exp : ℕ

abbrev next : Scale → Scale
next s = record { rest = s.rest / unit; div = s.div * unit % 2 ^ 64; exp = s.exp + 1 }

unfoldable pub scale_loop : ℕ → Scale → Scale
scale_loop zero s = s
scale_loop (suc fuel) s = let more = scale_loop fuel (next s) in if leb unit s.rest then more else s

-- With fuel for as many rounds as a uint64 has bits.
unfoldable pub scale_of : ℕ → Scale
scale_of n = scale_loop 64 (record { rest = n / unit; div = unit; exp = 0 })

abbrev letters : List String
letters = "K" ∷ "M" ∷ "G" ∷ "T" ∷ "P" ∷ "E" ∷ []

letter_at : ℕ → List String → Option String
letter_at n [] = none
letter_at zero (l ∷ ls) = some l
letter_at (suc n) (l ∷ ls) = letter_at n ls

-- `"KMGTPE"[exp]`, which panics past the last letter.
unfoldable pub unit_letter : ℕ → Option String
unfolding letter_at
unit_letter exp = letter_at exp letters

-- None is the panic.
unfoldable pub human_bytes : {F : Type 0} → Floats F → ℕ → Option String
human_bytes fl n =
    if ltb n unit
    then some (decimal n <> " B")
    else let s = scale_of n in
      elim (unit_letter s.exp) [
        | none ↦ none
        | some letter ↦ some (fl.fixed 1 (fl.over (fl.of n) (fl.of s.div)) <> " " <> letter <> "iB")
      ]
