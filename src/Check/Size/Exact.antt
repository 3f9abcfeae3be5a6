-- ===== src/Check/Size/Exact.antt =====
-- The loop of `humanBytes` ends with the largest unit that the count reaches.
use photinus.Prelude.{
  ℕ, zero, suc, ◌+◌, ◌*◌, ◌/◌, ◌%◌, ◌^◌, ◌≤◌, ◌<◌, ◌≡◌, refl, arith, inl, inr, true, Bool-cases,
  leb, ltb, is_some,
}
use photinus.Check.Floats.{Floats}
use photinus.Check.Size.{
  unit, Scale, next, scale_loop, scale_of, unit_letter, human_bytes, letter_at,
}

-- One more round, by the unit that is reached.
Rounds : ℕ → ℕ → ℕ → Type 0
Rounds n e rest =
    (e + 1 ≤ 5)
    × (unit ^ (e + 1) * unit % 2 ^ 64 ≡ unit ^ (e + 1 + 1))
    × (unit ^ (e + 1 + 1) * (rest / unit) ≤ n)
    × (n < unit ^ (e + 1 + 1) * (rest / unit + 1))

round :
    (n rest e : ℕ)
    → n < 2 ^ 64
    → unit ≤ rest
    → unit ^ (e + 1) * rest ≤ n
    → n < unit ^ (e + 1) * (rest + 1)
    → e ≤ 5
    → Rounds n e rest
unfolding Rounds
round n rest zero small big low high h = omega arith
round n rest (suc zero) small big low high h = omega arith
round n rest (suc (suc zero)) small big low high h = omega arith
round n rest (suc (suc (suc zero))) small big low high h = omega arith
round n rest (suc (suc (suc (suc zero)))) small big low high h = omega arith
round n rest (suc (suc (suc (suc (suc zero))))) small big low high h = omega arith
round n rest (suc (suc (suc (suc (suc (suc e)))))) small big low high h = absurd (omega arith)

-- The loop, once `s.exp` units are divided out.
record Inv (n : ℕ) (s : Scale) : Type 0 where
  power : s.div ≡ unit ^ (s.exp + 1)
  low : unit ^ (s.exp + 1) * s.rest ≤ n
  high : n < unit ^ (s.exp + 1) * (s.rest + 1)
  known : s.exp ≤ 5
  left : 1 ≤ s.rest

next-Inv : (n : ℕ) (s : Scale) → n < 2 ^ 64 → unit ≤ s.rest → Inv n s → Inv n (next s)
unfolding Rounds
next-Inv n s small big i =
    let r = round n s.rest s.exp small big i.low i.high i.known in
    record {
      power = rw i.power r.1;
      low = r.2;
      high = r.3;
      known = r.0;
      left = omega (arith, i.left);
    }

loop-Inv :
    (fuel n : ℕ) (s : Scale)
    → n < 2 ^ 64
    → 6 ≤ fuel + s.exp
    → Inv n s
    → Inv n (scale_loop fuel s) × ((scale_loop fuel s).rest < unit)
unfolding scale_loop
loop-Inv zero n s small enough i = absurd (omega (arith, i.known))
loop-Inv (suc f) n s small enough i = elim (Bool-cases (leb unit s.rest)) [
  | inl big ↦
      rw big (loop-Inv f n (next s) small (omega arith) (next-Inv n s small (ground arith) i))
  | inr stop ↦ rw stop (i, ground arith)
]

scale_of-Inv : (n : ℕ) → unit ≤ n → n < 2 ^ 64 → Inv n (scale_of n) × ((scale_of n).rest < unit)
unfolding scale_of
scale_of-Inv n big small = loop-Inv 64 n _ small (omega arith) (record {
  power = refl;
  low = omega arith;
  high = omega arith;
  known = omega arith;
  left = omega arith;
})

-- Where the loop ends, the unit has a letter and is the largest that the count reaches.
settled :
    (n rest e : ℕ)
    → unit ^ (e + 1) * rest ≤ n
    → n < unit ^ (e + 1) * (rest + 1)
    → e ≤ 5
    → 1 ≤ rest
    → rest < unit
    → (is_some (unit_letter e) ≡ true) × (unit ^ (e + 1) ≤ n) × (n < unit ^ (e + 1 + 1))
unfolding unit_letter letter_at
settled n rest zero low high h left stop = (refl, omega arith, omega arith)
settled n rest (suc zero) low high h left stop = (refl, omega arith, omega arith)
settled n rest (suc (suc zero)) low high h left stop = (refl, omega arith, omega arith)
settled n rest (suc (suc (suc zero))) low high h left stop = (refl, omega arith, omega arith)
settled n rest (suc (suc (suc (suc zero)))) low high h left stop = (refl, omega arith, omega arith)
settled n rest (suc (suc (suc (suc (suc zero))))) low high h left stop =
    (refl, omega arith, omega arith)
settled n rest (suc (suc (suc (suc (suc (suc e)))))) low high h left stop = absurd (omega arith)

-- The scale fits the count: the divisor is the power of 1024 that the letter names, the largest that
-- the count reaches.
abbrev pub IsScaled : ℕ → Scale → Type 0
IsScaled n s =
    (is_some (unit_letter s.exp) ≡ true)
    × (s.div ≡ unit ^ (s.exp + 1))
    × (s.div ≤ n)
    × (n < unit ^ (s.exp + 1 + 1))

-- The loop of `humanBytes` has ended, by its own test, for every uint64 of at least a KiB. Its divisor
-- is then the power of 1024 that the letter names, which did not overflow, and the largest that the
-- count reaches; the index is that of a letter.
pub scale_of-ends :
    (n : ℕ) → unit ≤ n → n < 2 ^ 64 → ((scale_of n).rest < unit) × IsScaled n (scale_of n)
scale_of-ends n big small =
    let (i, stop) = scale_of-Inv n big small in
    let s = settled n _ _ i.low i.high i.known i.left stop in
    (stop, (s.0, i.power, omega (arith, i.power, s.1), s.2))

-- `humanBytes` never runs past its letters: it says every uint64.
pub human_bytes-says :
    {F : Type 0} (fl : Floats F) (n : ℕ) → n < 2 ^ 64 → is_some (human_bytes fl n) ≡ true
unfolding human_bytes
human_bytes-says fl n small = elim (Bool-cases (ltb n unit)) [
  | inl few ↦ rw few refl
  | inr many ↦ ground (arith, many, scale_of-ends n (ground arith) small)
]
