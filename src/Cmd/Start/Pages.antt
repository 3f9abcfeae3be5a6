-- ===== src/Cmd/Start/Pages.antt =====
-- Who is interrupted by what, by the channels that cmd/photinus/run.go sets up.
use photinus.Prelude.{
  ◌&&◌, if◌then◌else◌, subst, ltb, eqb, ℕ, ◌+◌, ◌!=◌, ◌++◌, ◌≡◌, refl, inl, inr, arith, ◌≤◌, String,
  Bool, true, false, not, ◌||◌, List, [], ◌∷◌, map, ◌==◌, All, All-append, All-map, When, any,
  count, Bool-cases,
}
use photinus.Quorum.{subject}
use photinus.Notify.Event.{Event, stamp_critical, push_only}
use photinus.Cmd.Config.{Flags}
use photinus.Cmd.Watch.{Parsers, parsed, Watches, parse_watches}
use photinus.Cmd.Watch.Complete.{marks, watches_are_complete}
use photinus.Cmd.Start.{
  Channel, exec, post, relay, apns, chosen, unstarted, apns_incomplete, relay_and_apns,
  no_relay_url, bad_apns_key, channels, exec_channel, post_channel, relay_channel, apns_channel,
  apns_set, hears, fan_out, page,
}

abbrev pub is_command : Channel → Bool
is_command (exec command) = true
is_command c = false

abbrev pub is_phone : Channel → Bool
is_phone (exec command) = false
is_phone (post url token) = false
is_phone (relay urls) = true
is_phone (apns topic) = true

-- An event of a kind that interrupts.
abbrev pub interrupts : Event → Bool
interrupts e =
    e.kind == "down" || e.kind == "recovered" || e.kind == "flapping" || e.kind == "settled"

-- On a channel that interrupts: the stamped event, critical, and of such a kind.
abbrev IsFair : Event → Channel × Event → Type 0
IsFair e (c, heard) =
    When (not (is_command c)) ((heard ≡ e) × (e.critical ≡ true) × (interrupts e ≡ true))

push_only-IsFair :
    (e : Event) (c : Channel)
    → is_command c ≡ false
    → All (IsFair e) (map (λ heard. (c, heard)) (push_only e))
unfolding push_only
push_only-IsFair e c n = elim (Bool-cases e.critical) [
  | inl y ↦ elim (Bool-cases (interrupts e)) [
    | inl z ↦ rw (y, z, n) ((refl, refl, z), tt)
    | inr z ↦ rw (y, z) tt
  ]
  | inr y ↦ rw y tt
]

hears-IsFair : (e : Event) (c : Channel) → All (IsFair e) (map (λ heard. (c, heard)) (hears c e))
hears-IsFair e (exec command) = (tt, tt)
hears-IsFair e (post url token) = push_only-IsFair e (post url token) refl
hears-IsFair e (relay urls) = push_only-IsFair e (relay urls) refl
hears-IsFair e (apns topic) = push_only-IsFair e (apns topic) refl

fan_out-IsFair : (e : Event) (cs : List Channel) → All (IsFair e) (fan_out cs e)
unfolding fan_out
fan_out-IsFair e [] = tt
fan_out-IsFair e (c ∷ cs) =
    All-append (IsFair e) (map (λ heard. (c, heard)) (hears c e)) (fan_out cs e) (hears-IsFair e c)
      (fan_out-IsFair e cs)

-- What one delivery of an event must be, on a channel that interrupts: critical by a watch that was
-- marked so or about a lantern or a whole machine, and of a kind that interrupts.
abbrev pub IsEarned :
    {F : Type 0} → Parsers F → String → List String → Event → Channel × Event → Type 0
IsEarned lib id watches e (c, heard) = When (not (is_command c)) (
    ((any (marks lib id (subject e.check e.target)) watches
        || e.check == "lantern"
        || e.check == "blackout")
      ≡ true)
    × (interrupts e ≡ true))

module _ {F : Type 0} (lib : Parsers F) (id : String) (watches : List String) (ws : Watches F)
    (e : Event) where
  IsFair-IsEarned :
      parse_watches lib id watches ≡ parsed ws
      → (d : Channel × Event) → IsFair (stamp_critical ws.critical e) d
      → IsEarned lib id watches e d
  unfolding stamp_critical
  IsFair-IsEarned q (c, heard) h = elim (Bool-cases (is_command c)) [
    | inl y ↦ rw y tt
    | inr n ↦
        let (same, crit, kind) = rw n at h in
        rw n (
          ground (
            arith,
            crit,
            (watches_are_complete lib id watches ws (subject e.check e.target) q).1,
          ),
          kind,
        )
  ]

  -- An interruption is earned: whatever channels there are, one that reaches a phone hears of an event
  -- only if it goes down, comes back, starts or stops flapping, and is about a subject that an accepted
  -- watch marked critical, about a lantern or about a whole machine.
  pub page-IsEarned :
      (cs : List Channel)
      → parse_watches lib id watches ≡ parsed ws
      → All (IsEarned lib id watches e) (page ws.critical cs e)
  unfolding page
  page-IsEarned cs q =
      All-map (IsFair (stamp_critical ws.critical e)) (IsEarned lib id watches e)
        (fan_out cs (stamp_critical ws.critical e)) (IsFair-IsEarned q)
        (fan_out-IsFair (stamp_critical ws.critical e) cs)

count-append :
    (p : Channel → Bool) (xs ys : List Channel) → count p (xs ++ ys) ≡ count p xs + count p ys
unfolding count
count-append p [] ys = omega arith
count-append p (x ∷ xs) ys = ground (arith, count-append p xs ys)

one_if : Bool → ℕ
one_if b = if b then 1 else 0

phones-exec : (f : Flags) → count is_phone (exec_channel f) ≡ 0
unfolding exec_channel count
phones-exec f = ground arith

phones-post : (f : Flags) → count is_phone (post_channel f) ≡ 0
unfolding post_channel count
phones-post f = ground arith

phones-relay : (f : Flags) → count is_phone (relay_channel f) ≡ one_if (f.push_relay != "")
unfolding relay_channel count one_if
phones-relay f = ground arith

phones-apns : (f : Flags) → count is_phone (apns_channel f) ≡ one_if (eqb (apns_set f) 4)
unfolding apns_channel count one_if
phones-apns f = ground arith

-- The channels are chosen where no guard refuses.
guarded :
    (a b c d : Bool) (xs cs : List Channel)
    → (if a
        then unstarted apns_incomplete
        else if b
        then unstarted relay_and_apns
        else if c
        then unstarted no_relay_url
        else if d
        then unstarted bad_apns_key
        else chosen xs)
      ≡ chosen cs
    → (b ≡ false) × (xs ≡ cs)
guarded true b c d xs cs q = absurd (cc)
guarded false true c d xs cs q = absurd (cc)
guarded false false true d xs cs q = absurd (cc)
guarded false false false true xs cs q = absurd (cc)
guarded false false false false xs cs q = (refl, cc)

not_both : (r : Bool) (n : ℕ) → (r && ltb 0 n) ≡ false → one_if r + one_if (eqb n 4) ≤ 1
unfolding one_if
not_both r n h = ground (arith, h)

few_phones :
    (f : Flags)
    → (f.push_relay != "" && ltb 0 (apns_set f)) ≡ false
    → count is_phone (exec_channel f ++ post_channel f ++ relay_channel f ++ apns_channel f) ≤ 1
few_phones f apart = omega (
  arith,
  count-append is_phone (exec_channel f ++ post_channel f ++ relay_channel f) (apns_channel f),
  count-append is_phone (exec_channel f ++ post_channel f) (relay_channel f),
  count-append is_phone (exec_channel f) (post_channel f),
  phones-exec f,
  phones-post f,
  phones-relay f,
  phones-apns f,
  not_both (f.push_relay != "") (apns_set f) apart,
)

-- One box, one way to page: of the channels that a lantern starts with, at most one reaches phones
-- through Apple, the relays or the key.
pub one_phone_channel :
    (key_ok : Bool) (f : Flags) (cs : List Channel)
    → channels key_ok f ≡ chosen cs
    → count is_phone cs ≤ 1
unfolding channels
one_phone_channel key_ok f cs q =
    let (apart, same) = guarded _ _ _ _ _ cs q in
    subst (λ xs. count is_phone xs ≤ 1) same (few_phones f apart)
