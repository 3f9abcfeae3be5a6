-- ===== src/Lantern/State.antt =====
-- `Config`, `Lantern` and `New` of internal/lantern/lantern.go, and the records that a lantern keeps.
-- The checks, the tracker, the swarm handle and the logger are not part of the memory.
use photinus.Prelude.{
  ℕ, ◌*◌, String, Bool, List, [], ℤ, pos, negsuc, ltb_ℤ, ◌*ℤ◌, Time, Duration, second, Dict, ◌<>◌,
  ◌==◌, ◌&&◌, if◌then◌else◌, eqb,
}
use photinus.Quorum.{Observation, state_up}

-- internal/notify/apns.go
pub record PushRegistration : Type 0 where
  pub token : String
  pub env : String
  pub seen : Time

pub record PeerClock : Type 0 where
  pub offset : Duration
  pub window : Time
  pub sampled : Time

pub record Config : Type 0 where
  pub id : String
  pub interval : Duration
  pub max_age : Duration
  pub skew_max : Duration
  pub pulses : Dict Duration
  pub critical : Dict Bool
  pub blackout : ℤ

pub data Verdict : Type 0 where
  ok warn failed not_applicable : Verdict

pub record Lantern : Type 0 where
  pub id : String
  pub interval : Duration
  pub max_age : Duration
  pub skew_max : Duration
  pub pulses : Dict Duration
  pub critical : Dict Bool
  pub blackout_min : ℤ
  pub start : Time
  pub store : Dict Observation
  pub clocks : Dict PeerClock
  pub last_run : Dict Time
  pub last_verdict : Dict Verdict
  pub last_pulse : Dict Time
  pub pulse_stuck : Dict ℕ
  pub pulse_warned : Dict Bool
  pub departed : Dict Time
  pub forgotten : Dict Time
  pub addrs : Dict String
  pub bad_versions : List ℤ
  pub push_regs : Dict PushRegistration

-- How many dark subjects at one address make a blackout when the operator says nothing.
abbrev pub default_blackout : ℤ
default_blackout = pos 3

blackout_min : ℤ → ℤ
blackout_min (pos n) = if eqb n 0 then default_blackout else pos n
blackout_min (negsuc n) = pos 0

-- `New`, at the time `now`.
unfoldable pub new_lantern : Config → Time → Lantern
unfolding blackout_min ◌*ℤ◌
new_lantern cfg now =
    let interval = if ltb_ℤ (pos 0) cfg.interval then cfg.interval else pos (2 * second) in
    record {
      id = cfg.id;
      interval = interval;
      max_age = (if ltb_ℤ (pos 0) cfg.max_age then cfg.max_age else pos 5 *ℤ interval);
      skew_max = cfg.skew_max;
      pulses = cfg.pulses;
      critical = cfg.critical;
      blackout_min = blackout_min cfg.blackout;
      start = now;
      store = [];
      clocks = [];
      last_run = [];
      last_verdict = [];
      last_pulse = [];
      pulse_stuck = [];
      pulse_warned = [];
      departed = [];
      forgotten = [];
      addrs = [];
      bad_versions = [];
      push_regs = [];
    }

unfoldable pub store_key : Observation → String
store_key o = o.observer <> "|" <> o.check <> "|" <> o.target

-- A pulse receipt records a job's ping, not a lantern's opinion.
abbrev pub is_receipt : Observation → Bool
is_receipt o = o.check == "pulse" && o.state == state_up
