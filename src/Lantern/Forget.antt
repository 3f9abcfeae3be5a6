-- ===== src/Lantern/Forget.antt =====
-- `forget`, `forgetSubject` and `prune` of internal/lantern/lantern.go: what a lantern drops from its
-- memory. The swarm's own `Forget`, which `forget` calls too, is in Swarm.
use photinus.Prelude.{
  ◌*◌, String, Bool, not, ◌&&◌, ◌||◌, Time, Duration, pos, ltb_ℤ, ◌*ℤ◌, wrap64, second, hour,
  older_than, ◌==◌, Dict, lookup, insert, delete, keep_entries, is_some, if◌then◌else◌,
}
use photinus.Quorum.{Observation}
use photinus.Lantern.State.{Lantern, PushRegistration, is_receipt}
use photinus.Lantern.Merge.{subject_of}

-- Word of a departed lantern or about it, receipts aside.
abbrev pub mentions : String → Observation → Bool
mentions name o = not (is_receipt o) && (o.observer == name || o.target == name)

unfoldable pub forget : String → Time → Lantern → Lantern
forget name now l = record l {
  store = keep_entries (λ k o. not (mentions name o)) l.store;
  departed = insert name now l.departed;
  clocks = delete name l.clocks;
}

unfoldable pub forget_subject : String → Time → Lantern → Lantern
forget_subject subject now l = record l {
  store = keep_entries (λ k o. not (subject_of o == subject)) l.store;
  forgotten = insert subject now l.forgotten;
}

abbrev pub tombstone_age : Duration
tombstone_age = pos (72 * hour)

-- `notify.PushTTL`
abbrev pub push_ttl : Duration
push_ttl = pos (30 * 24 * hour)

-- How long an observation stays in the store: three times its TTL, an hour at least.
horizon : Duration → Observation → Duration
horizon max_age o =
    let ttl = if ltb_ℤ (pos 0) o.ttl then wrap64 (o.ttl *ℤ pos second) else max_age in
    let h = wrap64 (pos 3 *ℤ ttl) in if ltb_ℤ h (pos hour) then pos hour else h

prune_push : Time → Dict PushRegistration → Dict PushRegistration
prune_push now = keep_entries (λ token r. not (older_than now r.seen push_ttl))

unfoldable pub prune : Time → Lantern → Lantern
unfolding horizon prune_push
prune now l = record l {
  store = keep_entries (λ k o. not (older_than now o.seen (horizon l.max_age o))) l.store;
  departed = keep_entries (λ name at. not (older_than now at tombstone_age)) l.departed;
  forgotten = keep_entries (λ subject at. not (older_than now at tombstone_age)) l.forgotten;
  last_pulse =
      keep_entries
        (λ name at. is_some (lookup name l.pulses) || not (older_than now at tombstone_age))
        l.last_pulse;
  push_regs = prune_push now l.push_regs;
}
