-- ===== src/Cmd/DoorTests.antt =====
-- The theorems on the status lines and the panel at concrete inputs.
use photinus.Cmd.Run.{join_swarm, attach_swarm, serve_status, close_status, leave_swarm, Luck, run}
use photinus.Cmd.Run.Ends.{
  is_join, is_leave, is_serve, is_close, is_panel, is_unpanel, is_run, is_farewell, leaves_last,
  run_ends_what_it_began,
}
use photinus.Prelude.{
  ◌≡◌, refl, ◌⊎◌, inl, inr, ℕ, ◌+◌, String, Bool, true, false, not, ◌&&◌, ◌||◌, Option, none, some,
  List, [], ◌∷◌, pos, ◌==◌, Ranked, map, sum, count,
}
use photinus.Quorum.{state_up, state_warn, state_down}
use photinus.Lantern.State.{Config, new_lantern}
use photinus.Lantern.Blackout.{SubjectStatus}
use photinus.Cmd.Status.{state_rank, section}
use photinus.Cmd.Panel.{HttpRequest, Panel, serve, bearer_ok}
use photinus.Cmd.Panel.Guard.{no_token_no_data}
use photinus.Cmd.Panel.Writes.{IsAllowed, only_valid_writes}

abbrev subject_at : String → String → String → SubjectStatus
subject_at check target state = record {
  decision = record {
    target = target;
    check = check;
    state = state;
    detail = "";
    authority = false;
    votes = 2;
    voters = 3;
    needed = 2;
    swarm_size = 3;
  };
  observations = [];
  critical = false;
}

abbrev shown : List SubjectStatus
shown =
    subject_at "lantern" "box" state_up
    ∷ subject_at "cpu" "box" state_warn
    ∷ subject_at "memory" "box" state_down
    ∷ subject_at "http" "shop" state_up
    ∷ []

worst_is_first :
    map (λ (s : SubjectStatus). s.decision.check) (section shown "box").rows ≡ "memory" ∷ "cpu" ∷ []
unfolding section photinus.Prelude.sort_by photinus.Prelude.keep photinus.Prelude.insert_by
    state_rank
worst_is_first = refl

abbrev blank : Config
blank = record {
  id = "a";
  interval = pos 2;
  max_age = pos 10;
  skew_max = pos 5;
  pulses = [];
  critical = [];
  blackout = pos 3;
}

abbrev panel : Panel
panel = record {
  token = "secret";
  release = "1";
  asset = λ name. name;
  show_status = λ st. st.id;
  stamp = λ t. "now";
  quote = λ s. s;
  decode = λ s. none;
}

abbrev stranger : HttpRequest
stranger = record {
  method = "POST";
  path = "/pulse/backup";
  authorization = "Bearer guess";
  body = "";
}

abbrev friend : HttpRequest
friend = record stranger { authorization = "Bearer secret" }

no_token_no_data_example :
    ((serve panel 5 none stranger (new_lantern blank 1)).0 ≡ new_lantern blank 1)
    × ((serve panel 5 none stranger (new_lantern blank 1)).1
        ≡ (serve panel 6 none stranger (new_lantern blank 2)).1)
unfolding bearer_ok photinus.Prelude.strip
no_token_no_data_example =
    no_token_no_data panel 5 6 none none stranger (new_lantern blank 1) (new_lantern blank 2) refl
      refl

-- A ping with the token is recorded.
ping_lands :
    (serve panel 5 none friend (new_lantern blank 1)).1.text
    ≡ "pulse backup recorded, not declared on this lantern\n"
unfolding serve photinus.Prelude.strip photinus.Cmd.Panel.door bearer_ok
    photinus.Cmd.Watch.valid_pulse_name photinus.Prelude.trim_prefix photinus.Prelude.every
    photinus.Lantern.Pulse.pulse photinus.Prelude.lookup new_lantern
ping_lands = refl

only_valid_writes_example :
    IsAllowed panel 5 (new_lantern blank 1) (serve panel 5 none friend (new_lantern blank 1)).0
only_valid_writes_example = only_valid_writes panel 5 none friend (new_lantern blank 1)

-- The panel's address is taken.
abbrev unlucky : Luck
unlucky = record { wants_panel = true; joins = true; status_serves = true; panel_serves = false }

panel_is_taken :
    run unlucky ≡ join_swarm ∷ attach_swarm ∷ serve_status ∷ close_status ∷ leave_swarm ∷ []
unfolding run
panel_is_taken = refl

run_ends_what_it_began_example :
    (count is_join (run unlucky) ≡ count is_leave (run unlucky))
    × (count is_serve (run unlucky) ≡ count is_close (run unlucky))
    × (count is_panel (run unlucky) ≡ count is_unpanel (run unlucky))
    × (count is_run (run unlucky) ≡ count is_farewell (run unlucky))
    × (leaves_last (run unlucky) ≡ true)
run_ends_what_it_began_example = run_ends_what_it_began unlucky
