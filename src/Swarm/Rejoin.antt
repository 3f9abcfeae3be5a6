-- ===== src/Swarm/Rejoin.antt =====
-- `rejoinLoop` of internal/swarm/swarm.go: one round of the loop, from what memberlist answers.
use photinus.Prelude.{
  ℕ, ◌≡◌, refl, Bool, true, false, not, ◌&&◌, List, [], ◌∷◌, ◌++◌, arith, ltb, leb, Duration,
  if◌then◌else◌,
}

-- What memberlist answers in one round: the seeds joined, whether there was an error, the members.
pub record Answer : Type 0 where
  pub joined_seeds : ℕ
  pub failed : Bool
  pub num_members : ℕ

pub data Line : Type 0 where
  no_seed : Line
  joined_swarm : ℕ → Line

-- The `switch`: whether the lantern has joined, and the line that is logged.
unfoldable pub note_join : Answer → Bool → Bool × List Line
note_join a joined =
    if a.failed && not joined
    then (joined, no_seed ∷ [])
    else if ltb 0 a.joined_seeds && not joined
    then (true, joined_swarm a.joined_seeds ∷ [])
    else (joined, [])

-- The rest of the round: whether the lantern still counts as joined, and how long it waits.
unfoldable pub pace : Duration → Duration → Answer → Bool → Bool × Duration
pace lonely steady a joined = if leb a.num_members 1 then (false, lonely) else (joined, steady)

unfoldable pub rejoin_round : Duration → Duration → Answer → Bool → Bool × Duration × List Line
rejoin_round lonely steady a joined =
    let (joined', lines) = note_join a joined in
    let (still, wait) = pace lonely steady a joined' in (still, wait, lines)

-- The loop over the answers: the waits and the lines, in order.
unfoldable pub rejoin_loop : Duration → Duration → List Answer → Bool → List Duration × List Line
rejoin_loop lonely steady [] joined = ([], [])
rejoin_loop lonely steady (a ∷ answers) joined =
    let (still, wait, lines) = rejoin_round lonely steady a joined in
    let (waits, more) = rejoin_loop lonely steady answers still in (wait ∷ waits, lines ++ more)

-- Each round has peers.
abbrev pub AllPeopled : List Answer → Type 0
AllPeopled [] = Unit
AllPeopled (a ∷ answers) = (leb a.num_members 1 ≡ false) × AllPeopled answers

-- Once joined, a lantern that keeps its peers rejoins in silence, however its seeds answer.
pub steady_is_quiet :
    (lonely steady : Duration) (answers : List Answer)
    → AllPeopled answers
    → (rejoin_loop lonely steady answers true).1 ≡ []
unfolding rejoin_loop rejoin_round note_join pace
steady_is_quiet lonely steady [] h = refl
steady_is_quiet lonely steady (a ∷ answers) h =
    ground (arith, h.0, steady_is_quiet lonely steady answers h.1)
