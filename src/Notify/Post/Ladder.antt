-- ===== src/Notify/Post/Ladder.antt =====
-- The urgency of a page is the same by url (internal/notify/http.go) and by Apple (apns.go).
use photinus.Prelude.{◌≡◌, refl, String, ◌||◌, ◌==◌, is_some, Bool-cases, inl, inr}
use photinus.Notify.Event.{Event}
use photinus.Notify.Apns.{alert_payload, payload, apns_priority}
use photinus.Notify.Post.{post, priority_for}

-- Of every event, whatever its kind: the page by url is urgent exactly where the push interrupts, and
-- either urgent or high exactly where Apple is asked to deliver at once.
pub ladders_agree :
    (url token : String) (e : Event)
    → (((post url token e).x_priority == "urgent") ≡ is_some (payload e).interruption_level)
      × (((post url token e).x_priority == "urgent" || (post url token e).x_priority == "high")
          ≡ (apns_priority e.kind == "10"))
unfolding post payload alert_payload apns_priority priority_for
ladders_agree url token e = elim (Bool-cases (e.kind == "down")) [
  | inl d ↦ rw d (refl, refl)
  | inr d ↦ elim (Bool-cases (e.kind == "flapping")) [
    | inl f ↦ rw (d, f) (refl, refl)
    | inr f ↦ elim (Bool-cases (e.kind == "cleared" || e.kind == "settled")) [
      | inl c ↦ rw (d, f, c) (refl, refl)
      | inr c ↦ rw (d, f, c) (refl, refl)
    ]
  ]
]
