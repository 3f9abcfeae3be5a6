-- ===== src/Cmd/Start/Standard.antt =====
-- The standard checks of cmd/photinus/run.go, underneath the named ones.
use photinus.Prelude.{
  append_nil, ◌≡◌, refl, ap, inl, inr, arith, eq_iff, String, Bool, true, false, not, List, [], ◌∷◌,
  ◌++◌, ◌==◌, pos, keep, any, if◌then◌else◌, Bool-cases, cut, cut_last, trim_prefix, strip,
}
use photinus.Cmd.Watch.{
  Parsers, Parsed, refused, parsed, and_then, Watched, disk, cpu, memory, swap, uptime, net,
  Watches, parse_watches, parse_item, watch_loop,
}
use photinus.Cmd.Start.{default_watches, check_key, have, fill_in, with_standard, watched}

module _ {F : Type 0} where
  keep-append :
      (p : Watched F → Bool) (xs ys : List (Watched F)) → keep p (xs ++ ys) ≡ keep p xs ++ keep p ys
  unfolding keep
  keep-append p [] ys = refl
  keep-append p (x ∷ xs) ys = ground (arith, keep-append p xs ys)

  -- The checks of one subject.
  abbrev pub at_key : String → List (Watched F) → List (Watched F)
  at_key k = keep (λ c. check_key c == k)

  at_key-std :
      (named std : List (Watched F)) (k : String)
      → at_key k (keep (λ c. not (have named (check_key c))) std)
        ≡ (if have named k then [] else at_key k std)
  unfolding keep
  at_key-std named [] k = ground arith
  at_key-std named (c ∷ std) k = elim (Bool-cases (check_key c == k)) [
    | inl y ↦
        let e = ap (have named) ((eq_iff (check_key c) k).0 y) in
        ground (arith, e, y, at_key-std named std k)
    | inr n ↦ ground (arith, n, at_key-std named std k)
  ]

  none_of : (named : List (Watched F)) (k : String) → have named k ≡ false → at_key k named ≡ []
  unfolding keep have any
  none_of [] k h = refl
  none_of (c ∷ named) k h = ground (arith, h, none_of named k)

  -- Of each subject the named checks, if there is one, and the standard ones otherwise.
  fill_in-overrides :
      (std named : List (Watched F)) (k : String)
      → at_key k (fill_in std named) ≡ (if have named k then at_key k named else at_key k std)
  unfolding fill_in
  fill_in-overrides std named k =
      let parts =
        keep-append (λ c. check_key c == k) named
          (keep (λ c. not (have named (check_key c))) std) in
      elim (Bool-cases (have named k)) [
        | inl y ↦ ground (arith, y, parts, at_key-std named std k, append_nil (at_key k named))
        | inr n ↦ ground (arith, n, parts, at_key-std named std k, none_of named k n)
      ]

  -- The standard checks, at their own thresholds.
  abbrev pub standard_checks : Parsers F → String → List (Watched F)
  standard_checks lib id =
      disk id "/" lib.zero
      ∷ cpu id lib.zero
      ∷ memory id lib.zero
      ∷ swap id lib.zero
      ∷ uptime id (pos 0)
      ∷ net id lib.zero
      ∷ []

  -- The standard checks are always accepted, whatever the parsers.
  standard :
      (lib : Parsers F) (id : String)
      → parse_watches lib id default_watches
        ≡ parsed (record { checks = standard_checks lib id; pulses = []; critical = [] })
  unfolding parse_watches parse_item cut trim_prefix strip photinus.Cmd.Watch.split_threshold
      cut_last photinus.Cmd.Watch.parse_percent photinus.Cmd.Watch.mark photinus.Cmd.Watch.file_item
  standard lib id = refl

  -- Naming a standard check overrides it: where the watches are accepted, a lantern with the standard
  -- checks starts, and of each subject it runs the named checks, if there is one, or else the standard
  -- checks; never both.
  pub watched-overrides :
      (lib : Parsers F) (id : String) (watches : List String) (ws : Watches F) (k : String)
      → parse_watches lib id watches ≡ parsed ws
      → (result : Watches F) × (watched lib id true watches ≡ parsed result)
        × (result.pulses ≡ ws.pulses)
        × (result.critical ≡ ws.critical)
        × (at_key k result.checks
            ≡ (if have ws.checks k then at_key k ws.checks else at_key k (standard_checks lib id)))
  unfolding watched
  watched-overrides lib id watches ws k q =
      let std : Watches F = record {
        checks = standard_checks lib id;
        pulses = [];
        critical = [];
      } in
      (
        with_standard std ws,
        rw (q, standard lib id) refl,
        refl,
        refl,
        fill_in-overrides (standard_checks lib id) ws.checks k,
      )
