-- ===== src/Lantern/Gossip/Chunks.antt =====
-- What the batches of `chunkFlash` in internal/lantern/liveness.go hold, and their size.
use photinus.Prelude.{
  append_assoc, append_nil, ℕ, ◌+◌, ◌≤◌, ◌≡◌, refl, String, Bool, true, false, ◌&&◌, Option, List,
  [], ◌∷◌, ◌++◌, arith, ltb, length, is_some, keep, All, All-append, ◌⊎◌, inl, inr, if◌then◌else◌,
  Bool-cases, ap, ◌∙◌, sym,
}
use photinus.Quorum.{Observation}
use photinus.Lantern.Gossip.{weight, chunk_step, chunk_loop, last_batch, batches}

abbrev pub flatten : List (List Observation) → List Observation
flatten [] = []
flatten (b ∷ bs) = b ++ flatten bs

flatten-append : (bs cs : List (List Observation)) → flatten (bs ++ cs) ≡ flatten bs ++ flatten cs
flatten-append [] cs = refl
flatten-append (b ∷ bs) cs =
    ap (λ r. b ++ r) (flatten-append bs cs) ∙ sym (append_assoc b (flatten bs) (flatten cs))

module _ (encode : Observation → Option String) (base limit : ℕ) where
  abbrev pub load : List Observation → ℕ
  load [] = 0
  load (o ∷ os) = weight encode o + load os

  abbrev is_written : Observation → Bool
  is_written o = is_some (encode o)

  -- The guard of the flush in the loop.
  abbrev is_over : Observation → List Observation → ℕ → Bool
  is_over o batch size = ltb 0 (length batch) && ltb limit (size + weight encode o)

  flatten-last_batch :
      (batch : List Observation) → flatten (last_batch encode base limit batch) ≡ batch
  flatten-last_batch [] = refl
  flatten-last_batch (o ∷ batch) = append_nil (o ∷ batch)

  flatten-chunk_step :
      (o : Observation) (batch : List Observation) (size : ℕ) (rest : List Observation)
      → let (flushed, batch', size') = chunk_step encode base limit o batch size in
        flatten flushed ++ (batch' ++ rest) ≡ batch ++ (if is_written o then o ∷ rest else rest)
  unfolding chunk_step
  flatten-chunk_step o batch size rest = elim (Bool-cases (is_written o)) [
    | inr n ↦ rw n refl
    | inl y ↦ elim (Bool-cases (is_over o batch size)) [
      | inl f ↦ rw y (rw f (ap (λ r. r ++ o ∷ rest) (append_nil batch)))
      | inr f ↦ rw y (rw f (append_assoc batch (o ∷ []) rest))
    ]
  ]

  flatten-chunk_loop :
      (obs batch : List Observation) (size : ℕ)
      → flatten (chunk_loop encode base limit obs batch size) ≡ batch ++ keep is_written obs
  unfolding chunk_loop keep
  flatten-chunk_loop [] batch size = flatten-last_batch batch ∙ sym (append_nil batch)
  flatten-chunk_loop (o ∷ obs) batch size =
      let (flushed, batch', size') = chunk_step encode base limit o batch size in
      flatten-append flushed (chunk_loop encode base limit obs batch' size')
      ∙ ap (λ r. flatten flushed ++ r) (flatten-chunk_loop obs batch' size')
      ∙ flatten-chunk_step o batch size (keep is_written obs)

  -- Nothing is lost: the batches, one after the other, are the observations that can be written at
  -- all, in their order.
  pub batches_complete :
      (obs : List Observation) → flatten (batches encode base limit obs) ≡ keep is_written obs
  unfolding batches
  batches_complete obs = flatten-chunk_loop obs [] base

  load-append : (xs ys : List Observation) → load (xs ++ ys) ≡ load xs + load ys
  load-append [] ys = omega arith
  load-append (x ∷ xs) ys = omega (arith, load-append xs ys)

  -- A batch within the budget of a packet.
  abbrev pub IsWithin : List Observation → Type 0
  IsWithin batch = base + load batch ≤ limit

  abbrev IsTracked : List Observation → ℕ → Type 0
  IsTracked batch size = (size ≡ base + load batch) × ((batch ≡ []) ⊎ IsWithin batch)

  full_batch :
      (o : Observation) (batch : List Observation) (size : ℕ)
      → IsTracked batch size
      → is_over o batch size ≡ true
      → IsWithin batch
  full_batch o [] size t f = absurd (ground (arith, f))
  full_batch o (x ∷ batch) size (e, inl n) f = absurd (cc)
  full_batch o (x ∷ batch) size (e, inr h) f = h

  grown :
      (o : Observation) (batch : List Observation) (size : ℕ)
      → base + weight encode o ≤ limit
      → IsTracked batch size
      → is_over o batch size ≡ false
      → IsWithin (batch ++ o ∷ [])
  grown o [] size w t f = omega (arith, w)
  grown o (x ∷ batch) size w t f = ground (arith, w, t.0, f, load-append (x ∷ batch) (o ∷ []))

  chunk_step-IsWithin :
      (o : Observation) (batch : List Observation) (size : ℕ)
      → base + weight encode o ≤ limit
      → IsTracked batch size
      → let (flushed, batch', size') = chunk_step encode base limit o batch size in
        All IsWithin flushed × IsTracked batch' size'
  unfolding chunk_step
  chunk_step-IsWithin o batch size w t = elim (Bool-cases (is_written o)) [
    | inr n ↦ rw n (tt, t)
    | inl y ↦ elim (Bool-cases (is_over o batch size)) [
      | inl f ↦
          rw y (rw f ((full_batch o batch size t f, tt), (omega arith, inr (omega (arith, w)))))
      | inr f ↦ rw y (
          rw f
            (tt, (omega (arith, t.0, load-append batch (o ∷ [])), inr (grown o batch size w t f))))
    ]
  ]

  last_batch-IsWithin :
      (batch : List Observation)
      → (batch ≡ []) ⊎ IsWithin batch
      → All IsWithin (last_batch encode base limit batch)
  last_batch-IsWithin [] h = tt
  last_batch-IsWithin (o ∷ batch) (inl e) = cc
  last_batch-IsWithin (o ∷ batch) (inr h) = (h, tt)

  chunk_loop-IsWithin :
      (obs batch : List Observation) (size : ℕ)
      → All (λ o. base + weight encode o ≤ limit) obs
      → IsTracked batch size
      → All IsWithin (chunk_loop encode base limit obs batch size)
  unfolding chunk_loop
  chunk_loop-IsWithin [] batch size h t = last_batch-IsWithin batch t.1
  chunk_loop-IsWithin (o ∷ obs) batch size h t =
      let (flushed, batch', size') = chunk_step encode base limit o batch size in
      let (full, tracked) = chunk_step-IsWithin o batch size h.0 t in
      All-append IsWithin flushed _ full (chunk_loop-IsWithin obs batch' size' h.1 tracked)

  -- Every batch keeps the budget: where each observation alone fits beside the envelope, the envelope
  -- and the observations of a batch with their commas come to at most the limit.
  pub batches-IsWithin :
      (obs : List Observation)
      → All (λ o. base + weight encode o ≤ limit) obs
      → All IsWithin (batches encode base limit obs)
  unfolding batches
  batches-IsWithin obs h = chunk_loop-IsWithin obs [] base h (omega arith, inl refl)
