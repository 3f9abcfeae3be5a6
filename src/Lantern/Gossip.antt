-- ===== src/Lantern/Gossip.antt =====
-- `chunkFlash` and `fitForGossip` of internal/lantern/liveness.go. The JSON encoder is a parameter:
-- `encode` writes an observation, `wrap` the envelope around a batch, and either may fail.
pub mod Chunks
pub mod Fit
use photinus.Prelude.{
  ℕ, ◌+◌, ◌-◌, ◌≤◌, ◌<◌, ◌≡◌, refl, String, Bool, true, false, not, ◌&&◌, Option, none, some, List,
  [], ◌∷◌, ◌++◌, arith, leb, ltb, ◌<>◌, byte_length, take_bytes, length, is_some, keep, All, When,
  length-append, ◌⊎◌, inl, inr, All-append, if◌then◌else◌, Bool-cases, Option-cases, ap, ◌∙◌, sym,
}
use photinus.Quorum.{Observation}

abbrev pub flash_obs_limit : ℕ
flash_obs_limit = 900

abbrev fits : ℕ → Option String → Bool
fits limit none = false
fits limit (some b) = leb (byte_length b) limit

module _ (encode : Observation → Option String) where
  -- Whether an observation is written, in no more than `limit` bytes.
  abbrev pub is_fit : ℕ → Observation → Bool
  is_fit limit o = fits limit (encode o)

  -- The detail, cut so that the observation fits by the bytes it is over.
  abbrev trimmed : ℕ → Observation → Observation
  trimmed cut o = record o { detail = take_bytes cut o.detail <> "..." }

  bare : Observation → Observation
  bare o = record o { detail = "" }

  -- Without its detail, as the last resort.
  last_resort : ℕ → Observation → Observation × Bool
  unfolding bare
  last_resort limit o = (bare o, is_fit limit (bare o))

  shorten : ℕ → Observation → ℕ → Observation × Bool
  unfolding last_resort
  shorten limit o size =
      let over = size - limit + 8 in
      let cut = byte_length o.detail - over in
      if ltb 0 cut && is_fit limit (trimmed cut o)
      then (trimmed cut o, true)
      else last_resort limit o

  -- From what the encoder makes of the observation as it is.
  fit_from : ℕ → Observation → Option String → Observation × Bool
  unfolding shorten
  fit_from limit o none = (o, false)
  fit_from limit o (some b) =
      if leb (byte_length b) limit then (o, true) else shorten limit o (byte_length b)

  unfoldable pub fit_for_gossip : ℕ → Observation → Observation × Bool
  unfolding fit_from
  fit_for_gossip limit o = fit_from limit o (encode o)

  -- What an observation adds to a batch: its text and a comma.
  abbrev pub weight : Observation → ℕ
  weight o = elim (encode o) [ none ↦ 0 | some b ↦ byte_length b + 1 ]

  module _ (base limit : ℕ) where
    -- The body of the loop: the batches that are flushed, the new batch and its size.
    chunk_step : Observation → List Observation → ℕ → List (List Observation) × List Observation × ℕ
    chunk_step o batch size =
        if not (is_some (encode o))
        then ([], batch, size)
        else if ltb 0 (length batch) && ltb limit (size + weight o)
        then (batch ∷ [], o ∷ [], base + weight o)
        else ([], batch ++ o ∷ [], size + weight o)

    -- What `flush` leaves at the end.
    abbrev last_batch : List Observation → List (List Observation)
    last_batch [] = []
    last_batch (o ∷ batch) = (o ∷ batch) ∷ []

    chunk_loop : List Observation → List Observation → ℕ → List (List Observation)
    unfolding chunk_step
    chunk_loop [] batch size = last_batch batch
    chunk_loop (o ∷ obs) batch size =
        let (flushed, batch', size') = chunk_step o batch size in
        flushed ++ chunk_loop obs batch' size'

    -- The batches that are wrapped, in order.
    unfoldable pub batches : List Observation → List (List Observation)
    unfolding chunk_loop
    batches obs = chunk_loop obs [] base

-- The payloads of the batches; one that cannot be wrapped is left out.
unfoldable pub payloads : (List Observation → Option String) → List (List Observation) → List String
payloads wrap [] = []
payloads wrap (batch ∷ rest) =
    let more = payloads wrap rest in elim (wrap batch) [ none ↦ more | some p ↦ p ∷ more ]

-- The envelope without observations is measured; 16 stands in where it cannot be written.
unfoldable pub envelope_size : Option String → ℕ
envelope_size none = 16
envelope_size (some b) = byte_length b

unfoldable pub chunk_flash :
    (Observation → Option String)
    → (List Observation → Option String)
    → ℕ
    → List Observation
    → List String
chunk_flash encode wrap limit obs =
    payloads wrap (batches encode (envelope_size (wrap [])) limit obs)
