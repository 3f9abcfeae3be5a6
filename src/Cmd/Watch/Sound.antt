-- ===== src/Cmd/Watch/Sound.antt =====
-- What the watches of cmd/photinus/run.go come to, whatever Go's parsers answer.
use photinus.Prelude.{
  ◌≡◌, refl, sym, ap, subst, ◌∙◌, ◌⊎◌, inl, inr, arith, eq_iff, String, Bool, true, false, Option,
  none, some, List, [], ◌∷◌, pos, ltb_ℤ, Duration, ◌==◌, lookup, insert, lookup-insert, cut,
  if◌then◌else◌, Bool-cases, trim_prefix,
}
use photinus.Cmd.Watch.{
  Parsers, WatchError, Parsed, refused, parsed, and_then, Watched, Item, a_check, a_pulse,
  valid_pulse_name, window_of, pulse_at, http_at, disk_at, cert_at, parse_kind, parse_item,
  is_critical, Watches, mark, file_item, add_item, watch_loop, parse_watches,
}

module _ {F : Type 0} (lib : Parsers F) (id : String) where
  -- A pulse has a valid name that is not the lantern's, and a window in the future.
  abbrev pub IsSilence : String → Duration → Type 0
  IsSilence name window =
      (valid_pulse_name name ≡ true) × ((name == id) ≡ false) × (ltb_ℤ (pos 0) window ≡ true)

  abbrev ItemHolds : Item F → Type 0
  ItemHolds (a_check c) = Unit
  ItemHolds (a_pulse name window) = IsSilence name window

  abbrev Holds : Parsed (Item F) → Type 0
  Holds (refused e) = Unit
  Holds (parsed item) = ItemHolds item

  data Fine (p : Parsed (Item F)) : Type 0 where
    fine : Holds p → Fine p

  holds : {p : Parsed (Item F)} → Fine p → Holds p
  holds (fine h) = h

  either : (b : Bool) {p q : Parsed (Item F)} → Fine p → Fine q → Fine (if b then p else q)
  either true h k = h
  either false h k = k

  after :
      {A : Type 0} (p : Parsed A) (f : A → Parsed (Item F))
      → ((a : A) → Fine (f a))
      → Fine (and_then p f)
  after (refused e) f h = fine tt
  after (parsed a) f h = h a

  window_of-Fine :
      (name : String) (o : Option Duration)
      → (valid_pulse_name name ≡ true)
      → ((name == id) ≡ false)
      → Fine (and_then (window_of lib o) (λ d. parsed (a_pulse name d)))
  unfolding window_of
  window_of-Fine name none v other = fine tt
  window_of-Fine name (some d) v other = elim (Bool-cases (ltb_ℤ (pos 0) d)) [
    | inl positive ↦ rw positive (fine (v, other, positive))
    | inr bad ↦ rw bad (fine tt)
  ]

  pulse_at-Fine : (parts : String × String) → Fine (pulse_at lib id parts)
  unfolding pulse_at
  pulse_at-Fine (name, win) = elim (Bool-cases (valid_pulse_name name)) [
    | inl v ↦ elim (Bool-cases (name == id)) [
      | inl own ↦ rw (v, own) (fine tt)
      | inr other ↦
          rw (v, other)
            (either (win == "") (fine (v, other, refl))
              (window_of-Fine name (lib.parse_duration win) v other))
    ]
    | inr bad ↦ rw bad (fine tt)
  ]

  wrong : (e : WatchError) → Fine (refused e)
  wrong e = fine tt

  right : (c : Watched F) → Fine (parsed (a_check c))
  right c = fine tt

  parse_kind-Fine : (kind rest : String) → Fine (parse_kind lib id kind rest)
  unfolding parse_kind http_at disk_at cert_at
  parse_kind-Fine kind rest = search (either, after, wrong, right, pulse_at-Fine) depth 14

  parse_item-Fine : (w : String) → Fine (parse_item lib id w)
  unfolding parse_item
  parse_item-Fine w =
      let (kind, rest) = cut b':' (trim_prefix w "critical:") in parse_kind-Fine kind rest

  abbrev Outcome : Parsed (Item F) → Type 0
  Outcome p = ((e : WatchError) × (p ≡ refused e)) ⊎ ((item : Item F) × (p ≡ parsed item))

  outcome : (p : Parsed (Item F)) → Outcome p
  outcome (refused e) = inl (e, refl)
  outcome (parsed item) = inr (item, refl)

  item-Holds : (w : String) (item : Item F) → parse_item lib id w ≡ parsed item → ItemHolds item
  item-Holds w item e = holds (subst Fine e (parse_item-Fine w))

  -- All pulses of the map keep their promise.
  abbrev PulsesHold : Watches F → Type 0
  PulsesHold ws = (name : String) (d : Duration) → lookup name ws.pulses ≡ some d → IsSilence name d

  pulses-mark : (crit : Bool) (s : String) (ws : Watches F) → (mark crit s ws).pulses ≡ ws.pulses
  unfolding mark
  pulses-mark true s ws = refl
  pulses-mark false s ws = refl

  add_item-PulsesHold :
      (crit : Bool) (item : Item F) (ws : Watches F)
      → ItemHolds item
      → PulsesHold ws
      → PulsesHold (add_item crit item ws)
  unfolding file_item
  add_item-PulsesHold crit (a_check c) ws h k name d e =
      k name d (sym (ap (lookup name) (pulses-mark crit _ _)) ∙ e)
  add_item-PulsesHold crit (a_pulse n window) ws h k name d e =
      let found : lookup name (insert n window ws.pulses) ≡ some d =
        sym (ap (lookup name) (pulses-mark crit _ _)) ∙ e in
      elim (Bool-cases (n == name)) [
        | inl same ↦
            subst (λ (at : String × Duration). IsSilence at.0 at.1)
              (ground (arith, found, lookup-insert n name window ws.pulses, same, eq_iff n name)) h
        | inr other ↦ k name d (ground (arith, found, lookup-insert n name window ws.pulses, other))
      ]

  watch_loop-PulsesHold :
      (watches : List String) (ws result : Watches F)
      → watch_loop lib id watches ws ≡ parsed result
      → PulsesHold ws
      → PulsesHold result
  unfolding watch_loop
  watch_loop-PulsesHold [] ws result e k = subst PulsesHold (kept e) k
    where
      kept : parsed ws ≡ parsed result → ws ≡ result
      kept q = cc
  watch_loop-PulsesHold (w ∷ watches) ws result e k = elim (outcome (parse_item lib id w)) [
    | inl (err, q) ↦ let none_parsed = rw q at e in absurd (cc)
    | inr (item, q) ↦
        watch_loop-PulsesHold watches (add_item (is_critical lib w) item ws) result (rw q at e)
          (add_item-PulsesHold (is_critical lib w) item ws (item-Holds w item q) k)
  ]

  -- Every pulse that the watches declare has a valid name, which is not the lantern's own, and a window
  -- in the future.
  pub pulses_are_sound :
      (watches : List String) (ws : Watches F) (name : String) (window : Duration)
      → parse_watches lib id watches ≡ parsed ws
      → lookup name ws.pulses ≡ some window
      → IsSilence name window
  unfolding parse_watches lookup
  pulses_are_sound watches ws name window e h =
      watch_loop-PulsesHold watches _ ws e (λ n d none_there. absurd (cc)) name window h
