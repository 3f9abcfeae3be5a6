-- ===== src/Lantern/Words/Heard.antt =====
-- The payloads of internal/lantern, written by one lantern and received by another.
use photinus.Prelude.{
  pos, ◌≡◌, refl, sym, ◌∙◌, ap, inl, inr, String, true, Option, none, some, List, [], ◌∷◌, ◌++◌,
  arith, Time, lookup, values, Unique, All, keep, is_some, Option-cases,
}
use photinus.Quorum.{Observation}
use photinus.Lantern.State.{Lantern}
use photinus.Lantern.Merge.{accept, back, merge_one, merge}
use photinus.Lantern.Merge.Sync.{IsWelcome, IsFiled, IsHonest, AreOne, merge_agree}
use photinus.Lantern.Push.{merge_push}
use photinus.Lantern.Skew.{observe_clock}
use photinus.Lantern.Gossip.{batches, payloads, chunk_flash, envelope_size}
use photinus.Lantern.Gossip.Chunks.{flatten, batches_complete}
use photinus.Lantern.Receive.{Envelope, Payload, wrapped, sample_clock, receive}
use photinus.Lantern.Flash.{packet_limit}
use photinus.Lantern.Words.{batch_envelope, sync_envelope, sync_state, flash_chunks}

-- The memory without the clocks and the registrations, which a merge does not read.
abbrev pub core : Lantern → Lantern
core l = record l { clocks = []; push_regs = [] }

core-merge_one : (o : Observation) (l : Lantern) → core (merge_one o l) ≡ merge_one o (core l)
unfolding merge_one accept back
core-merge_one o l = ground arith

core-merge : (obs : List Observation) (l : Lantern) → core (merge obs l) ≡ merge obs (core l)
unfolding merge
core-merge [] l = refl
core-merge (o ∷ obs) l = core-merge obs (merge_one o l) ∙ ap (merge obs) (core-merge_one o l)

core-sample_clock :
    (env : Envelope) (now : Time) (l : Lantern) → core (sample_clock env now l) ≡ core l
unfolding sample_clock observe_clock
core-sample_clock env now l = ground arith

-- An envelope of observations is merged; what else it carries does not touch the rest.
core-receive :
    (env : Envelope) (now : Time) (l : Lantern)
    → env.leave ≡ ""
    → env.forget ≡ ""
    → env.v ≡ pos 1
    → core (receive now (wrapped env) l).0 ≡ merge env.obs (core l)
unfolding receive
core-receive env now l e f g =
    let pushed : Lantern = record l { push_regs = merge_push env.push l.push_regs } in
    rw (e, f, g)
      (core-merge env.obs (sample_clock env now pushed)
        ∙ ap (merge env.obs) (core-sample_clock env now pushed))

merge-append :
    (front rest : List Observation) (l : Lantern)
    → merge (front ++ rest) l ≡ merge rest (merge front l)
unfolding merge
merge-append [] rest l = refl
merge-append (o ∷ front) rest l = merge-append front rest (merge_one o l)

-- A lantern that hears payloads, each at its own time.
unfoldable pub hear : (String → Payload) → (String → Time) → List String → Lantern → Lantern
hear decode arrival [] l = l
hear decode arrival (p ∷ ps) l = hear decode arrival ps (receive (arrival p) (decode p) l).0

module _ (encode : Envelope → Option String) (decode : String → Payload)
    (read_back : (e : Envelope) (p : String) → encode e ≡ some p → decode p ≡ wrapped e) where
  core-hear :
      (arrival : String → Time) (from : String) (sent : Time) (bs : List (List Observation))
      (l : Lantern)
      → All (λ b. is_some (encode (batch_envelope from sent b)) ≡ true) bs
      → core (hear decode arrival (payloads (λ b. encode (batch_envelope from sent b)) bs) l)
        ≡ merge (flatten bs) (core l)
  unfolding hear payloads merge
  core-hear arrival from sent [] l w = refl
  core-hear arrival from sent (b ∷ bs) l w =
      elim (Option-cases (encode (batch_envelope from sent b))) [
        | inl e ↦ absurd (ground (arith, e, w.0))
        | inr (p, e) ↦
            let env = batch_envelope from sent b in
            let l' = (receive (arrival p) (decode p) l).0 in
            let heard : core l' ≡ merge b (core l) =
              ap (λ d. core (receive (arrival p) d l).0) (read_back env p e)
              ∙ (unfold batch_envelope in core-receive env (arrival p) l refl refl refl) in
            ap (λ o. core (hear decode arrival (more o) l)) e
            ∙ core-hear arrival from sent bs l' w.1
            ∙ ap (merge (flatten bs)) heard
            ∙ sym (merge-append b (flatten bs) (core l))
      ]
    where
      rest : List String
      rest = payloads (λ batch. encode (batch_envelope from sent batch)) bs

      more : Option String → List String
      more o = elim o [ none ↦ rest | some q ↦ q ∷ rest ]

  -- A flash that arrives whole is one merge: the lantern that hears all its chunks, whenever each of
  -- them comes, holds what it would hold after merging the observations that can be written, in one
  -- go. The JSON decoder reads back what the encoder writes, and the chunks can be written.
  pub flash_arrives :
      (encode_one : Observation → Option String) (arrival : String → Time) (sent : Time)
      (sender l : Lantern) (own : List Observation)
      → All
          (λ b. is_some (encode (batch_envelope sender.id sent b)) ≡ true)
          (batches encode_one
            (envelope_size (encode (batch_envelope sender.id sent [])))
            packet_limit
            own)
      → (hear decode arrival (flash_chunks encode encode_one sent sender own) l).store
        ≡ (merge (keep (λ o. is_some (encode_one o)) own) l).store
  unfolding flash_chunks chunk_flash
  flash_arrives encode_one arrival sent sender l own w =
      let base = envelope_size (encode (batch_envelope sender.id sent [])) in
      ap (λ (m : Lantern). m.store)
        (core-hear arrival sender.id sent (batches encode_one base packet_limit own) l w
          ∙ ap (λ obs. merge obs (core l)) (batches_complete encode_one base packet_limit own)
          ∙ sym (core-merge (keep (λ o. is_some (encode_one o)) own) l))

  store_heard :
      (now : Time) (sender l : Lantern) (at : Time) (p : String)
      → sync_state encode at sender ≡ some p
      → (receive now (decode p) l).0.store ≡ (merge (values sender.store) l).store
  unfolding sync_state sync_envelope
  store_heard now sender l at p e =
      let same : core (receive now (decode p) l).0 ≡ merge (values sender.store) (core l) =
        ap (λ d. core (receive now d l).0) (read_back (sync_envelope at sender) p e)
        ∙ core-receive (sync_envelope at sender) now l refl refl refl in
      ap (λ (m : Lantern). m.store) (same ∙ sym (core-merge (values sender.store) l))

  -- Anti-entropy converges: two lanterns that exchange the snapshots of what they believe hold the
  -- same under each key. No tombstone of either speaks against the other's word, neither holds newer
  -- word in the other's name than the other does, and one key's words of one time are one word.
  pub sync_converges :
      (k : String) (l l' : Lantern) (sent sent' now now' : Time) (p p' : String)
      → sync_state encode sent l ≡ some p
      → sync_state encode sent' l' ≡ some p'
      → IsFiled l.store × Unique l.store × IsFiled l'.store × Unique l'.store
      → All (IsWelcome l) (values l'.store)
      → All (IsWelcome l') (values l.store)
      → IsHonest l l'
      → IsHonest l' l
      → AreOne (lookup k l.store) (lookup k l'.store)
      → lookup k (receive now (decode p') l).0.store ≡ lookup k (receive now' (decode p) l').0.store
  sync_converges k l l' sent sent' now now' p p' e e' (f, u, f', u') w w' h h' one =
      ap (lookup k) (store_heard now l' l sent' p' e')
      ∙ merge_agree k l l' f u f' u' w w' h h' one
      ∙ sym (ap (lookup k) (store_heard now' l l' sent p e))
