-- ===== src/Lantern/Tests.antt =====
-- The lantern's theorems at concrete inputs.
use photinus.Prelude.{
  ℕ, ◌+◌, ◌≤◌, ◌<◌, ◌≡◌, refl, ◌⊎◌, ◌↔◌, inl, inr, String, Bool, true, false, not, List, [], ◌∷◌,
  map, arith, eq_iff, pos, negsuc, Time, Duration, ◌==◌, keep, All, Any, lookup, insert, none, some,
  since, contains, neg,
}
use photinus.Quorum.{Observation, state_up, state_down}
use photinus.Lantern.State.{Lantern, PeerClock, PushRegistration, store_key}
use photinus.Lantern.Merge.{merge, merge_one, subject_of}
use photinus.Lantern.Merge.Newest.{own_word_is_kept}
use photinus.Lantern.Merge.Tombstones.{no_ghosts}
use photinus.Lantern.Forget.{forget, mentions}

abbrev lit : Lantern
lit = record {
  id = "one";
  interval = pos 2;
  max_age = pos 10;
  skew_max = pos 5;
  pulses = ("backup", pos 60) ∷ [];
  critical = [];
  blackout_min = pos 3;
  start = 1;
  store = [];
  clocks = [];
  last_run = [];
  last_verdict = [];
  last_pulse = [];
  pulse_stuck = [];
  pulse_warned = [];
  departed = [];
  forgotten = [];
  addrs = [];
  bad_versions = [];
  push_regs = [];
}

abbrev word : String → String → String → Time → Observation
word who about state at = record {
  observer = who;
  target = about;
  check = "tcp";
  state = state;
  detail = "";
  seen = at;
  ttl = pos 0;
}

abbrev mine : Observation
mine = word "one" "db" state_up 5

abbrev forged : Observation
forged = word "one" "db" state_down 9

abbrev busy : Lantern
busy = record lit { store = ("one|tcp|db", mine) ∷ [] }

own_word_is_kept_example : lookup "one|tcp|db" busy.store ≡ some mine
unfolding merge merge_one lookup
own_word_is_kept_example = own_word_is_kept "one|tcp|db" (forged ∷ []) busy mine refl refl refl

-- A ghost of "two" from before its farewell at 20, and word of "three" after it.
abbrev stale_flash : List Observation
stale_flash = word "two" "db" state_down 15 ∷ word "three" "db" state_up 25 ∷ []

no_ghosts_example : mentions "two" (word "three" "db" state_up 25) ≡ false
unfolding merge merge_one forget lookup insert photinus.Lantern.Merge.back photinus.Prelude.delete
    photinus.Lantern.Merge.accept photinus.Lantern.Merge.file photinus.Prelude.keep_entries
    store_key
no_ghosts_example =
    no_ghosts "two" 20 stale_flash busy ((λ m. omega arith), ((λ m. absurd (cc)), tt))
      "three|tcp|db" (word "three" "db" state_up 25) refl

-- A receipt of a retired pulse.
abbrev receipt : Observation
receipt = record (word "two" "backup" state_up 15) { check = "pulse" }

abbrev clock : PeerClock
clock = record { offset = pos 9; window = 100; sampled = 100 }

abbrev show : Duration → String
show d = "some time"

abbrev phone : Time → PushRegistration
phone at = record { token = "abc"; env = "production"; seen = at }
