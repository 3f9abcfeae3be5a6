-- ===== src/Lantern/FlashTests.antt =====
-- The theorems on flashes, gossip and blackouts at concrete inputs.
use photinus.Prelude.{
  ◌*◌, ◌≡◌, String, false, Option, some, List, [], ◌∷◌, pos, second, minute, keep, All, ◌<>◌,
}
use photinus.Quorum.{Observation, state_up, state_down}
use photinus.Lantern.State.{Lantern, new_lantern, failed}
use photinus.Lantern.Blackout.{SubjectStatus, blackout}
use photinus.Lantern.Blackout.Total.{IsTotal, blackout-IsTotal}
use photinus.Lantern.Gossip.{batches}
use photinus.Lantern.Gossip.Chunks.{flatten, batches_complete}
use photinus.Lantern.Flash.{Check}

abbrev dark : String → SubjectStatus
dark about = record {
  decision = record {
    target = about;
    check = "http";
    state = state_down;
    detail = "";
    authority = false;
    votes = 2;
    voters = 3;
    needed = 2;
    swarm_size = 3;
  };
  observations = [];
  critical = false;
}

abbrev host : List (String × String)
host = ("http https://a.example/x", "192.0.2.7") ∷ ("http b.example", "192.0.2.7") ∷ []

blackout-IsTotal_example :
    All
      (IsTotal host (dark "https://a.example/x" ∷ dark "b.example" ∷ []) 2)
      (blackout (dark "https://a.example/x" ∷ dark "b.example" ∷ []) host (pos 2))
blackout-IsTotal_example =
    blackout-IsTotal (dark "https://a.example/x" ∷ dark "b.example" ∷ []) host 2

abbrev seen_of : String → Observation
seen_of about = record {
  observer = "one";
  target = about;
  check = "tcp";
  state = state_up;
  detail = "fine";
  seen = 5;
  ttl = pos 0;
}

-- An encoder that writes the target and the detail.
abbrev encode : Observation → Option String
encode o = some (o.target <> o.detail)

batches_complete_example :
    flatten (batches encode 10 30 (seen_of "alpha" ∷ seen_of "beta" ∷ seen_of "gamma" ∷ []))
    ≡ seen_of "alpha" ∷ seen_of "beta" ∷ seen_of "gamma" ∷ []
unfolding keep
batches_complete_example =
    batches_complete encode 10 30 (seen_of "alpha" ∷ seen_of "beta" ∷ seen_of "gamma" ∷ [])

abbrev slow : Check
slow = record {
  name = "cert";
  target = "a.example";
  every = some (pos (5 * minute));
  result = record { verdict = failed; detail = "expired"; addr = "" };
}

abbrev lit_now : Lantern
lit_now =
    new_lantern
      (record {
        id = "one";
        interval = pos (2 * second);
        max_age = pos 0;
        skew_max = pos 0;
        pulses = [];
        critical = [];
        blackout = pos 0;
      })
      7
