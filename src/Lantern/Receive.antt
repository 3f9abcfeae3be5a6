-- ===== src/Lantern/Receive.antt =====
-- `ReceiveFlash` of internal/lantern/lantern.go, from the parsed payload on. A farewell also makes the
-- swarm forget the lantern: its name is the second result.
use photinus.Prelude.{
  String, Bool, true, false, not, ◌&&◌, Option, none, some, List, [], ◌∷◌, ℤ, pos, negsuc, eqb,
  Time, ◌!=◌, if◌then◌else◌,
}
use photinus.Quorum.{Observation}
use photinus.Lantern.State.{Lantern, PushRegistration}
use photinus.Lantern.Merge.{merge}
use photinus.Lantern.Forget.{forget, forget_subject}
use photinus.Lantern.Push.{merge_push}
use photinus.Lantern.Skew.{observe_clock}

-- `envelope` of internal/lantern/liveness.go; a missing field is empty.
pub record Envelope : Type 0 where
  pub v : ℤ
  pub obs : List Observation
  pub leave : String
  pub forget : String
  pub push : List PushRegistration
  pub from : String
  pub sent : Option Time

-- What the JSON decoder makes of a payload: nothing, a bare array, or an envelope.
pub data Payload : Type 0 where
  garbled : Payload
  bare : List Observation → Payload
  wrapped : Envelope → Payload

abbrev pub flash_v : ℤ
flash_v = pos 1

abbrev eq_ℤ : ℤ → ℤ → Bool
eq_ℤ (pos a) (pos b) = eqb a b
eq_ℤ (pos a) (negsuc b) = false
eq_ℤ (negsuc a) (pos b) = false
eq_ℤ (negsuc a) (negsuc b) = eqb a b

has_version : ℤ → List ℤ → Bool
has_version v [] = false
has_version v (w ∷ ws) = if eq_ℤ w v then true else has_version v ws

-- A version that is not spoken is remembered, so that it is logged once.
note_version : ℤ → Lantern → Lantern
unfolding has_version
note_version v l =
    if has_version v l.bad_versions then l else record l { bad_versions = v ∷ l.bad_versions }

-- The one place a clock sample comes from.
unfoldable pub sample_clock : Envelope → Time → Lantern → Lantern
sample_clock env now l = elim env.sent [
  | none ↦ l
  | some sent ↦
      if env.from != "" && env.from != l.id && not (eqb sent 0)
      then observe_clock env.from sent now l
      else l
]

unfoldable pub receive : Time → Payload → Lantern → Lantern × Option String
unfolding note_version sample_clock
receive now garbled l = (l, none)
receive now (bare obs) l = (merge obs l, none)
receive now (wrapped env) l =
    if env.leave != "" && env.leave != l.id
    then (forget env.leave now l, some env.leave)
    else if env.forget != ""
    then (forget_subject env.forget now l, none)
    else if not (eq_ℤ env.v flash_v)
    then (note_version env.v l, none)
    else (
      merge env.obs
          (sample_clock env now (record l { push_regs = merge_push env.push l.push_regs })),
      none,
    )
