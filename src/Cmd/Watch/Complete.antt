-- ===== src/Cmd/Watch/Complete.antt =====
-- Nothing more and nothing less than the watches of cmd/photinus/run.go ask for.
use photinus.Prelude.{
  append_nil, append_assoc, ◌≡◌, refl, sym, ap, subst, ◌∙◌, ◌⊎◌, inl, inr, arith, String, Bool,
  true, false, ◌&&◌, ◌||◌, Option, none, some, List, [], ◌∷◌, ◌++◌, ◌==◌, ◌<>◌, lookup,
  lookup-insert, get_or, any, cut_last, join-cut_last, Bool-cases,
}
use photinus.Cmd.Watch.{
  Parsers, Parsed, refused, parsed, and_then, Watched, Item, a_check, a_pulse, item_subject,
  parse_item, is_critical, Watches, mark, file_item, add_item, watch_loop, parse_watches,
  split_threshold, tail_threshold, threshold_of, is_percent,
}

abbrev pub is_parsed : {A : Type 0} → Parsed A → Bool
is_parsed (refused e) = false
is_parsed (parsed a) = true

module _ {F : Type 0} where
  -- The check that a watch asks for, and whether it asks for one about the subject.
  abbrev pub asked_check : Parsed (Item F) → List (Watched F)
  asked_check (refused e) = []
  asked_check (parsed (a_check c)) = c ∷ []
  asked_check (parsed (a_pulse name window)) = []

  abbrev pub asks_about : String → Parsed (Item F) → Bool
  asks_about key (refused e) = false
  asks_about key (parsed item) = item_subject item == key

  checks-add_item :
      (crit : Bool) (item : Item F) (ws : Watches F)
      → (add_item crit item ws).checks ≡ ws.checks ++ asked_check (parsed item)
  unfolding mark file_item
  checks-add_item true (a_check c) ws = refl
  checks-add_item false (a_check c) ws = refl
  checks-add_item true (a_pulse name window) ws = sym (append_nil ws.checks)
  checks-add_item false (a_pulse name window) ws = sym (append_nil ws.checks)

  critical-add_item :
      (crit : Bool) (item : Item F) (ws : Watches F) (key : String)
      → get_or (lookup key (add_item crit item ws).critical) false
        ≡ (crit && asks_about key (parsed item) || get_or (lookup key ws.critical) false)
  unfolding mark file_item
  critical-add_item crit (a_check c) ws key =
      ground (arith, lookup-insert (item_subject (a_check c)) key true ws.critical)
  critical-add_item crit (a_pulse name window) ws key =
      ground
        (arith, lookup-insert (item_subject {F = F} (a_pulse name window)) key true ws.critical)

module _ {F : Type 0} (lib : Parsers F) (id : String) where
  unfoldable pub asked : List String → List (Watched F)
  asked [] = []
  asked (w ∷ ws) = asked_check (parse_item lib id w) ++ asked ws

  -- A watch that is marked critical and asks for the subject.
  abbrev pub marks : String → String → Bool
  marks key w = is_critical lib w && asks_about key (parse_item lib id w)

  next :
      (w : String) (watches : List String) (ws result : Watches F)
      → watch_loop lib id (w ∷ watches) ws ≡ parsed result
      → (item : Item F) × (parse_item lib id w ≡ parsed item)
        × (watch_loop lib id watches (add_item (is_critical lib w) item ws) ≡ parsed result)
  unfolding watch_loop
  next w watches ws result e = after (parse_item lib id w) refl e
    where
      after :
          (p : Parsed (Item F))
          → parse_item lib id w ≡ p
          → and_then p (λ item. watch_loop lib id watches (add_item (is_critical lib w) item ws))
            ≡ parsed result
          → (item : Item F) × (parse_item lib id w ≡ parsed item)
            × (watch_loop lib id watches (add_item (is_critical lib w) item ws) ≡ parsed result)
      after (refused err) q h = absurd (cc)
      after (parsed item) q h = (item, q, h)

  kept : (ws result : Watches F) → parsed ws ≡ parsed result → ws ≡ result
  kept ws result q = cc

  watch_loop-checks :
      (watches : List String) (ws result : Watches F)
      → watch_loop lib id watches ws ≡ parsed result
      → result.checks ≡ ws.checks ++ asked watches
  unfolding watch_loop asked
  watch_loop-checks [] ws result e =
      sym (ap (λ (s : Watches F). s.checks) (kept ws result e)) ∙ sym (append_nil ws.checks)
  watch_loop-checks (w ∷ watches) ws result e =
      let (item, q, rest) = next w watches ws result e in
      watch_loop-checks watches (add_item (is_critical lib w) item ws) result rest
      ∙ ap (λ cs. cs ++ asked watches) (checks-add_item (is_critical lib w) item ws)
      ∙ append_assoc ws.checks (asked_check (parsed item)) (asked watches)
      ∙ sym (ap (λ p. ws.checks ++ (asked_check p ++ asked watches)) q)

  watch_loop-critical :
      (key : String) (watches : List String) (ws result : Watches F)
      → watch_loop lib id watches ws ≡ parsed result
      → get_or (lookup key result.critical) false
        ≡ (any (marks key) watches || get_or (lookup key ws.critical) false)
  unfolding watch_loop any
  watch_loop-critical key [] ws result e =
      sym (ap (λ (s : Watches F). get_or (lookup key s.critical) false) (kept ws result e))
  watch_loop-critical key (w ∷ watches) ws result e =
      let (item, q, rest) = next w watches ws result e in
      let more =
        watch_loop-critical key watches (add_item (is_critical lib w) item ws) result rest in
      ground (arith, more, q, critical-add_item (is_critical lib w) item ws key)

  -- What runs is what was asked for: when the watches are accepted, the checks are those the watches ask
  -- for, in their order, and a subject is critical exactly when a watch that is marked critical asks for
  -- it.
  pub watches_are_complete :
      (watches : List String) (ws : Watches F) (key : String)
      → parse_watches lib id watches ≡ parsed ws
      → (ws.checks ≡ asked watches)
        × (get_or (lookup key ws.critical) false ≡ any (marks key) watches)
  unfolding parse_watches lookup
  watches_are_complete watches ws key e =
      (watch_loop-checks watches _ ws e, ground (arith, watch_loop-critical key watches _ ws e))

  is_parsed-and_then :
      {A B : Type 0} (p : Parsed A) (f : A → Parsed B) (b : Bool)
      → ((a : A) → p ≡ parsed a → is_parsed (f a) ≡ b)
      → is_parsed (and_then p f) ≡ (is_parsed p && b)
  is_parsed-and_then (refused e) f b h = refl
  is_parsed-and_then (parsed a) f b h = h a refl

  unfoldable pub all_parsed : List String → Bool
  all_parsed [] = true
  all_parsed (w ∷ watches) = is_parsed (parse_item lib id w) && all_parsed watches

  is_parsed-watch_loop :
      (watches : List String) (ws : Watches F)
      → is_parsed (watch_loop lib id watches ws) ≡ all_parsed watches
  unfolding watch_loop all_parsed
  is_parsed-watch_loop [] ws = refl
  is_parsed-watch_loop (w ∷ watches) ws =
      is_parsed-and_then (parse_item lib id w) _ (all_parsed watches)
        (λ item e. is_parsed-watch_loop watches (add_item (is_critical lib w) item ws))

  -- All or nothing: the watches are accepted exactly when each of them is, on its own; one bad watch
  -- refuses them all, wherever it stands.
  pub watches_all_or_none :
      (watches : List String) → is_parsed (parse_watches lib id watches) ≡ all_parsed watches
  unfolding parse_watches
  watches_all_or_none watches = is_parsed-watch_loop watches _

module _ {F : Type 0} (lib : Parsers F) where
  the_pair : (p q : String × F) → parsed p ≡ parsed q → p ≡ q
  the_pair p q e = cc

  -- What an accepted path and threshold are.
  abbrev IsSplit : String → String × F → Type 0
  IsSplit rest at =
      ((at.0 ≡ rest) × (at.1 ≡ lib.zero))
      ⊎ ((tail : String) × (rest ≡ at.0 <> String.◌∷◌ ":" tail)
          × (lib.parse_float tail ≡ some at.1)
          × (is_percent lib at.1 ≡ true))

  threshold_of-IsSplit :
      (rest front tail : String) (at : String × F) (o : Option F)
      → rest ≡ front <> String.◌∷◌ ":" tail
      → lib.parse_float tail ≡ o
      → threshold_of lib rest (front, tail) o ≡ parsed at
      → IsSplit rest at
  unfolding threshold_of
  threshold_of-IsSplit rest front tail at none j q e =
      subst (IsSplit rest) (the_pair (rest, lib.zero) at e) (inl (refl, refl))
  threshold_of-IsSplit rest front tail at (some pct) j q e =
      elim (Bool-cases (is_percent lib pct)) [
        | inl y ↦ subst (IsSplit rest) (the_pair (front, pct) at (rw y at e)) (inr (tail, j, q, y))
        | inr n ↦ let nothing = rw n at e in absurd (cc)
      ]

  tail_threshold-IsSplit :
      (rest : String) (at : String × F) (o : Option (String × String))
      → cut_last b':' rest ≡ o
      → tail_threshold lib rest o ≡ parsed at
      → IsSplit rest at
  unfolding tail_threshold
  tail_threshold-IsSplit rest at none j e =
      subst (IsSplit rest) (the_pair (rest, lib.zero) at e) (inl (refl, refl))
  tail_threshold-IsSplit rest at (some (front, tail)) j e =
      threshold_of-IsSplit rest front tail at (lib.parse_float tail)
        (join-cut_last ":" rest front tail j) refl e

  -- A path keeps its colons: an accepted disk watch is its path alone, with no threshold, or the path, a
  -- colon and a text that is read as a percentage.
  pub split_threshold_lem :
      (rest path : String) (pct : F)
      → split_threshold lib rest ≡ parsed (path, pct)
      → ((path ≡ rest) × (pct ≡ lib.zero))
        ⊎ ((tail : String) × (rest ≡ path <> String.◌∷◌ ":" tail)
            × (lib.parse_float tail ≡ some pct)
            × (is_percent lib pct ≡ true))
  unfolding split_threshold
  split_threshold_lem rest path pct e =
      tail_threshold-IsSplit rest (path, pct) (cut_last b':' rest) refl e
