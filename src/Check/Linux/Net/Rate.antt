-- ===== src/Check/Linux/Net/Rate.antt =====
-- The rates of the Linux traffic probe, over a run of samples.
use photinus.Prelude.{
  ◌-◌, ◌≤◌, ◌<◌, ◌≡◌, refl, arith, true, not, ◌&&◌, Option, none, some, List, [], ◌∷◌, All, ◌==◌,
  leb, since, if◌then◌else◌,
}
use photinus.Check.Floats.{Floats}
use photinus.Check.Local.{NetRate}
use photinus.Check.Linux.{Result, err, found, word64}
use photinus.Check.Linux.Net.{NetBase, fresh_base, Sample, base_of, no_rate, rate_since, net_probe}

-- The last sample of a run, the newest first.
unfoldable pub last_sample : List (Result Sample) → Option Sample
last_sample [] = none
last_sample (err e ∷ rs) = last_sample rs
last_sample (found s ∷ rs) = some s

-- A clock past the zero time, and counters of 64 bits.
abbrev pub IsSound : Result Sample → Type 0
IsSound (err e) = Unit
IsSound (found s) = (1 ≤ s.now) × (s.counted.rx < word64) × (s.counted.tx < word64)

HasSound : Option Sample → Type 0
HasSound none = Unit
HasSound (some s) = IsSound (found s)

-- The baseline that a sample leaves.
base_at : Option Sample → NetBase
base_at none = fresh_base
base_at (some s) = base_of s

module _ {F : Type 0} (fl : Floats F) where
  unfoldable pub base_after : List (Result Sample) → NetBase
  base_after [] = fresh_base
  base_after (r ∷ rs) = (net_probe fl (base_after rs) r).1

  -- The growth of the counters since the sample before, on the same interface.
  abbrev pub growth : Option Sample → Sample → NetRate F
  growth none s = no_rate fl s.iface
  growth (some p) s =
      let dt = fl.seconds (since s.now p.now) in
      if p.iface == s.iface
        && leb p.counted.rx s.counted.rx
        && leb p.counted.tx s.counted.tx
        && not (fl.is_at_most dt (fl.of 0))
      then record {
        rx = fl.over (fl.of (s.counted.rx - p.counted.rx)) dt;
        tx = fl.over (fl.of (s.counted.tx - p.counted.tx)) dt;
        iface = s.iface;
        ready = true;
      }
      else no_rate fl s.iface

  base_after_lem : (rs : List (Result Sample)) → base_after rs ≡ base_at (last_sample rs)
  unfolding base_after last_sample net_probe base_at
  base_after_lem [] = refl
  base_after_lem (err e ∷ rs) = base_after_lem rs
  base_after_lem (found s ∷ rs) = refl

  rate_from_none : (s : Sample) → rate_since fl fresh_base s ≡ no_rate fl s.iface
  unfolding rate_since
  rate_from_none s = ground arith

  rate_from_some :
      (p s : Sample)
      → IsSound (found p)
      → IsSound (found s)
      → rate_since fl (base_of p) s ≡ growth (some p) s
  unfolding rate_since
  rate_from_some p s h k = ground arith

  rate_lem :
      (o : Option Sample) (s : Sample)
      → HasSound o
      → IsSound (found s)
      → rate_since fl (base_at o) s ≡ growth o s
  unfolding HasSound base_at
  rate_lem none s h k = rate_from_none s
  rate_lem (some p) s h k = rate_from_some p s h k

  last_sample-HasSound : (rs : List (Result Sample)) → All IsSound rs → HasSound (last_sample rs)
  unfolding last_sample HasSound
  last_sample-HasSound [] h = tt
  last_sample-HasSound (err e ∷ rs) (here, later) = last_sample-HasSound rs later
  last_sample-HasSound (found s ∷ rs) (here, later) = here

  -- After any run of samples and errors, the probe reports the true growth of the counters since the last
  -- sample, and no rate at the first one, after a change of the interface or where a counter went back.
  pub net_probe_tells_growth :
      (rs : List (Result Sample)) (s : Sample)
      → All IsSound rs
      → IsSound (found s)
      → (net_probe fl (base_after rs) (found s)).0 ≡ found (growth (last_sample rs) s)
  unfolding net_probe
  net_probe_tells_growth rs s h k =
      rw (base_after_lem rs, rate_lem (last_sample rs) s (last_sample-HasSound rs h) k) refl
