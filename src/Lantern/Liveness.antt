-- ===== src/Lantern/Liveness.antt =====
-- `livenessObservations` of internal/lantern/liveness.go: the mesh watching itself.
use photinus.Prelude.{
  ◌≡◌, refl, ◌↔◌, inl, inr, String, Bool, true, false, List, [], ◌∷◌, pos, arith, eq_iff, Time,
  ◌==◌, contains, All, All-map, eq_refl, keep, map, not, if◌then◌else◌, Bool-cases,
}
use photinus.Quorum.{Observation, state_up, state_down}

unfoldable pub peer_observation : String → List String → Time → String → Observation
peer_observation id alive now peer = record {
  observer = id;
  target = peer;
  check = "lantern";
  state = (if contains alive peer then state_up else state_down);
  detail = (if contains alive peer then "answering gossip" else "stopped answering gossip");
  seen = now;
  ttl = pos 0;
}

unfoldable pub liveness_observations : String → List String → List String → Time → List Observation
liveness_observations id alive [] now = []
liveness_observations id alive (peer ∷ roster) now =
    let rest = liveness_observations id alive roster now in
    if peer == id then rest else peer_observation id alive now peer ∷ rest

-- What a report on a peer may say.
abbrev pub IsFair : String → List String → List String → Observation → Type 0
IsFair id alive roster o =
    (o.observer ≡ id)
    × ((o.target == id) ≡ false)
    × (contains roster o.target ≡ true)
    × ((o.state ≡ state_down) ↔ (contains alive o.target ≡ false))

peer_observation-IsFair :
    (id : String) (alive roster : List String) (now : Time) (peer : String)
    → (peer == id) ≡ false
    → IsFair id alive (peer ∷ roster) (peer_observation id alive now peer)
unfolding peer_observation contains
peer_observation-IsFair id alive roster now peer h =
    (refl, h, ground (arith, eq_refl peer), states (contains alive peer))
  where
    states : (b : Bool) → ((if b then state_up else state_down) ≡ state_down) ↔ (b ≡ false)
    states true = ((λ e. ground (arith, e, eq_iff state_up state_down)), λ e. cc)
    states false = ((λ e. refl), λ e. refl)

IsFair-cons :
    (id : String) (alive roster : List String) (peer : String) (o : Observation)
    → IsFair id alive roster o
    → IsFair id alive (peer ∷ roster) o
unfolding contains
IsFair-cons id alive roster peer o (a, b, c, d) = (a, b, ground arith, d)

-- Every lantern reports on its roster in its own name, never on itself, and says down of exactly the
-- peers that do not answer.
pub liveness-IsFair :
    (id : String) (alive roster : List String) (now : Time)
    → All (IsFair id alive roster) (liveness_observations id alive roster now)
unfolding liveness_observations
liveness-IsFair id alive [] now = tt
liveness-IsFair id alive (peer ∷ roster) now =
    let rest =
      All-map (IsFair id alive roster) (IsFair id alive (peer ∷ roster))
        (liveness_observations id alive roster now) (IsFair-cons id alive roster peer)
        (liveness-IsFair id alive roster now) in
    elim (Bool-cases (peer == id)) [
      | inl self ↦ rw self rest
      | inr other ↦ rw other (peer_observation-IsFair id alive roster now peer other, rest)
    ]

-- No peer is left out: there is a report for each entry of the roster that is not the lantern itself.
pub liveness_is_complete :
    (id : String) (alive roster : List String) (now : Time)
    → map (λ (o : Observation). o.target) (liveness_observations id alive roster now)
      ≡ keep (λ peer. not (peer == id)) roster
unfolding liveness_observations keep peer_observation
liveness_is_complete id alive [] now = refl
liveness_is_complete id alive (peer ∷ roster) now =
    ground (arith, liveness_is_complete id alive roster now)
