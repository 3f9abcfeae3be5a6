-- ===== src/Lantern/Pulse.antt =====
-- internal/lantern/pulse.go: the dead man's switch. `show` stands for Go's formatting of durations and
-- `stamp` for that of times.
pub mod Silence
use photinus.Prelude.{
  ℕ, ◌*◌, ◌/◌, String, Bool, true, false, Option, none, some, List, [], ◌∷◌, ℤ, pos, negsuc, ltb_ℤ,
  leb_ℤ, Time, Duration, millisecond, second, minute, hour, since, after, cat, ◌<>◌, ◌&&◌, Dict,
  lookup, insert, get_or, is_some, if◌then◌else◌,
}
use photinus.Quorum.{Observation, state_up, state_down}
use photinus.Lantern.Skew.{round_to}
use photinus.Lantern.State.{Lantern, store_key}

abbrev pub default_pulse_ttl : ℕ
default_pulse_ttl = 90000

-- The window in whole seconds, where one is declared that is a second at least.
pulse_ttl : Option Duration → ℤ
pulse_ttl none = pos default_pulse_ttl
pulse_ttl (some (pos w)) =
    if leb_ℤ (pos second) (pos w) then pos (w / second) else pos default_pulse_ttl
pulse_ttl (some (negsuc w)) = pos default_pulse_ttl

pulse_receipt : (Time → String) → String → Time → Lantern → Observation
unfolding pulse_ttl
pulse_receipt stamp name now l = record {
  observer = l.id;
  target = name;
  check = "pulse";
  state = state_up;
  detail = cat ("pulsed at " ∷ stamp now ∷ []);
  seen = now;
  ttl = pulse_ttl (lookup name l.pulses);
}

-- `Pulse`: the new state, and whether the pulse is declared here.
unfoldable pub pulse : (Time → String) → String → Time → Lantern → Lantern × Bool
unfolding pulse_receipt
pulse stamp name now l =
    let o = pulse_receipt stamp name now l in
    (
      record l {
        store = insert (store_key o) o l.store;
        last_pulse =
            (if after now (get_or (lookup name l.last_pulse) 0)
              then insert name now l.last_pulse
              else l.last_pulse);
      },
      is_some (lookup name l.pulses),
    )

-- The newest pulse heard, or the start of this lantern.
unfoldable pub baseline : Lantern → String → Time
baseline l name =
    let t = get_or (lookup name l.last_pulse) 0 in if after t l.start then t else l.start

-- `humanAge`: whole minutes past an hour, whole seconds past a minute.
unfoldable pub human_age : (Duration → String) → Duration → String
human_age show d =
    if leb_ℤ (pos hour) d
    then show (round_to minute d)
    else if leb_ℤ (pos minute) d
    then show (round_to second d)
    else show (round_to millisecond d)

unfoldable pub silence : (Duration → String) → Lantern → Time → String → Duration → Observation
silence show l now name window = record {
  observer = l.id;
  target = name;
  check = "pulse";
  state = state_down;
  detail = cat (
      "no pulse from "
      ∷ name
      ∷ " for "
      ∷ human_age show (since now (baseline l name))
      ∷ ", window is "
      ∷ show window
      ∷ []);
  seen = now;
  ttl = pos 0;
}

unfoldable pub silences : (Duration → String) → Lantern → Time → Dict Duration → List Observation
silences show l now [] = []
silences show l now ((name, window) ∷ m) =
    let rest = silences show l now m in
    if leb_ℤ (since now (baseline l name)) window
    then rest
    else silence show l now name window ∷ rest

unfoldable pub pulse_observations : (Duration → String) → Time → Lantern → List Observation
unfolding silences
pulse_observations show now l = silences show l now l.pulses
