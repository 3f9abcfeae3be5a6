-- ===== src/Notify/Event.antt =====
-- The events of internal/notify/notify.go, their sentences, and the senders that filter them.
use photinus.Prelude.{
  ◌≡◌, ◌≢◌, inl, inr, String, Bool, true, false, ◌&&◌, ◌||◌, List, [], ◌∷◌, arith, eq_iff, ◌==◌,
  ◌!=◌, ◌<>◌, cat, decimal, Dict, lookup, get_or, if◌then◌else◌, Bool-cases,
}
use photinus.Quorum.{Decision, state_warn, state_down, subject}

pub record Event : Type 0 where
  pub kind : String
  pub check : String
  pub target : String
  pub detail : String
  pub critical : Bool

unfoldable pub kind_for : String → String → String
kind_for prev cur =
    if cur == state_down
    then "down"
    else if cur == state_warn
    then "warning"
    else if prev == state_down
    then "recovered"
    else "cleared"

-- What the name of a transition says of its two ends.
pub kind_for_means :
    (prev cur : String)
    → ((kind_for prev cur == "recovered") ≡ true → (prev ≡ state_down) × (cur ≢ state_down))
      × ((kind_for prev cur == "down") ≡ true → cur ≡ state_down)
      × ((kind_for prev cur == "warning") ≡ true → cur ≡ state_warn)
unfolding kind_for
kind_for_means prev cur = elim (Bool-cases (cur == state_down)) [
  | inl d ↦ rw (d, kind_for) (ground arith, λ _. (eq_iff cur state_down).0 d, ground arith)
  | inr d ↦ elim (Bool-cases (cur == state_warn)) [
    | inl w ↦
        rw (d, kind_for)
          (rw (w, kind_for) (ground arith, ground arith, λ _. (eq_iff cur state_warn).0 w))
    | inr w ↦ elim (Bool-cases (prev == state_down)) [
      | inl p ↦
          rw (d, kind_for)
            (rw (w, kind_for)
              (rw (p, kind_for)
                (
                  λ _. ((eq_iff prev state_down).0 p, ground (arith, eq_iff cur state_down)),
                  ground arith,
                  ground arith,
                )))
      | inr p ↦
          rw (d, kind_for)
            (rw (w, kind_for) (rw (p, kind_for) (ground arith, ground arith, ground arith)))
    ]
  ]
]

unfoldable pub state_word : String → String
state_word state =
    if state == state_down then "down" else if state == state_warn then "warning" else "up"

-- `s += ": " + d.Detail`, where there is a detail.
with_detail : String → String → String
with_detail s detail = if detail != "" then s <> ": " <> detail else s

service_sentence : Decision → String → String
unfolding with_detail
service_sentence d kind =
    let base = d.check <> " on " <> d.target in
    let count = cat (
      decimal d.votes
      ∷ " of "
      ∷ decimal d.voters
      ∷ " lanterns agree and quorum needed "
      ∷ decimal d.needed
      ∷ []) in
    let how = if d.authority then "its own lantern reports it" else count in
    if kind == "down"
    then with_detail (base <> " is down, " <> how) d.detail
    else if kind == "warning"
    then with_detail (base <> " warns") d.detail
    else if kind == "recovered"
    then base <> " recovered"
    else base <> " cleared"

-- A blackout is about a machine, and has words of its own for two kinds.
sentence : Decision → String → String
unfolding service_sentence with_detail
sentence d kind =
    let other = service_sentence d kind in
    if d.check == "blackout" && kind == "down"
    then with_detail ("blackout at " <> d.target) d.detail
    else if d.check == "blackout" && kind == "recovered"
    then "blackout at " <> d.target <> " is over, its services are answering again"
    else other

unfoldable pub event : Decision → String → Event
unfolding sentence
event d kind = record {
  kind = kind;
  check = d.check;
  target = d.target;
  detail = sentence d kind;
  critical = false;
}

-- `Critical`: the stamp on an event before it goes on.
unfoldable pub stamp_critical : Dict Bool → Event → Event
stamp_critical subjects e = record e {
  critical =
      get_or (lookup (subject e.check e.target) subjects) false
      || e.check == "lantern"
      || e.check == "blackout";
}

-- `PushOnly`: what is handed on to the push sender, if anything is.
unfoldable pub push_only : Event → List Event
push_only e =
    if e.critical
      && (e.kind == "down" || e.kind == "recovered" || e.kind == "flapping" || e.kind == "settled")
    then e ∷ []
    else []
