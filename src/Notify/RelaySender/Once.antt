-- ===== src/Notify/RelaySender/Once.antt =====
-- How often a page of internal/notify/relay.go is delivered.
use photinus.Prelude.{
  ◌≡◌, ℕ, String, Bool, true, false, not, Option, List, count, length, When, if◌then◌else◌,
}
use photinus.Notify.RelaySender.{Outcome, unanswered, moves_on}

-- A relay that was asked and answered for good.
abbrev pub answered : String × Option ℕ → Bool
answered (u, answer) = not (moves_on answer)

abbrev pub is_unanswered : Outcome → Bool
is_unanswered unanswered = true
is_unanswered o = false

-- As many final answers as outcomes that are one; and all were asked where there is none.
abbrev pub IsOnce : List (String × Option ℕ) → Outcome → List (String × Option ℕ) → Type 0
IsOnce tried outcome relays =
    (count answered tried ≡ (if is_unanswered outcome then 0 else 1))
    × When (is_unanswered outcome) (length tried ≡ length relays)
