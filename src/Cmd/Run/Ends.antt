-- ===== src/Cmd/Run/Ends.antt =====
-- Whatever fails at the start, a run ends what it began.
use photinus.Prelude.{◌≡◌, refl, Bool, true, false, ◌&&◌, not, List, [], ◌∷◌, count}
use photinus.Cmd.Run.{
  Act, join_swarm, serve_status, serve_panel, run_lantern, farewell, close_panel, close_status,
  leave_swarm, Luck, run, with_panel, lit, going_dark,
}

abbrev pub is_join : Act → Bool
is_join join_swarm = true
is_join a = false

abbrev pub is_leave : Act → Bool
is_leave leave_swarm = true
is_leave a = false

abbrev pub is_serve : Act → Bool
is_serve serve_status = true
is_serve a = false

abbrev pub is_close : Act → Bool
is_close close_status = true
is_close a = false

abbrev pub is_panel : Act → Bool
is_panel serve_panel = true
is_panel a = false

abbrev pub is_unpanel : Act → Bool
is_unpanel close_panel = true
is_unpanel a = false

abbrev pub is_run : Act → Bool
is_run run_lantern = true
is_run a = false

abbrev pub is_farewell : Act → Bool
is_farewell farewell = true
is_farewell a = false

-- Nothing is done after the swarm is left.
abbrev pub leaves_last : List Act → Bool
leaves_last [] = true
leaves_last (a ∷ []) = is_leave a
leaves_last (a ∷ b ∷ acts) = not (is_leave a) && leaves_last (b ∷ acts)

-- Whatever fails at the start, a swarm that was joined is left once, as the last thing; the status socket
-- and the panel are closed as often as they were opened; and a lantern that ran says farewell.
pub run_ends_what_it_began :
    (k : Luck)
    → (count is_join (run k) ≡ count is_leave (run k))
      × (count is_serve (run k) ≡ count is_close (run k))
      × (count is_panel (run k) ≡ count is_unpanel (run k))
      × (count is_run (run k) ≡ count is_farewell (run k))
      × (leaves_last (run k) ≡ true)
unfolding run with_panel lit going_dark count
run_ends_what_it_began k = by_cases k.wants_panel k.joins k.status_serves k.panel_serves
  where
    Ends : Bool → Bool → Bool → Bool → Type 0
    Ends w j s p =
        let acts =
          run (record { wants_panel = w; joins = j; status_serves = s; panel_serves = p }) in
        (count is_join acts ≡ count is_leave acts)
        × (count is_serve acts ≡ count is_close acts)
        × (count is_panel acts ≡ count is_unpanel acts)
        × (count is_run acts ≡ count is_farewell acts)
        × (leaves_last acts ≡ true)

    by_cases : (w j s p : Bool) → Ends w j s p
    by_cases w false s p = (refl, refl, refl, refl, refl)
    by_cases w true false p = (refl, refl, refl, refl, refl)
    by_cases true true true true = (refl, refl, refl, refl, refl)
    by_cases true true true false = (refl, refl, refl, refl, refl)
    by_cases false true true p = (refl, refl, refl, refl, refl)
