-- ===== src/Lantern/Push.antt =====
-- internal/lantern/push.go: the phones' registrations.
use photinus.Prelude.{
  ◌≤◌, ◌≡◌, String, Bool, true, false, Option, none, some, List, [], ◌∷◌, arith, eq_iff, Time,
  after, ◌==◌, str_ltb, Dict, lookup, insert, lookup-insert, All, Any, inl, inr, ap, subst, not,
  ◌&&◌, values, sort_by, if◌then◌else◌,
}
use photinus.Lantern.State.{Lantern, PushRegistration}

abbrev pub is_newer : Time → Option PushRegistration → Bool
is_newer at none = true
is_newer at (some cur) = after at cur.seen

unfoldable pub register_push : String → String → Time → Lantern → Lantern
register_push token env now l =
    if is_newer now (lookup token l.push_regs)
    then record l {
      push_regs = insert token (record { token = token; env = env; seen = now }) l.push_regs;
    }
    else l

unfoldable pub push_registrations : Lantern → List PushRegistration
push_registrations l = sort_by (λ a b. str_ltb a.token b.token) (values l.push_regs)

merge_registration : PushRegistration → Dict PushRegistration → Dict PushRegistration
merge_registration r m =
    if r.token == ""
    then m
    else if is_newer r.seen (lookup r.token m)
    then insert r.token r m
    else m

unfoldable pub merge_push : List PushRegistration → Dict PushRegistration → Dict PushRegistration
unfolding merge_registration
merge_push [] m = m
merge_push (r ∷ rs) m = merge_push rs (merge_registration r m)

-- When a registration was last renewed, 0 for none.
abbrev pub renewed_at : Option PushRegistration → Time
renewed_at none = 0
renewed_at (some r) = r.seen

-- A registration takes the place of what is there.
abbrev takes : String → PushRegistration → Option PushRegistration → Bool
takes token r p = (not (r.token == "") && r.token == token) && is_newer r.seen p

lookup-merge_registration :
    (token : String) (r : PushRegistration) (m : Dict PushRegistration)
    → lookup token (merge_registration r m)
      ≡ (if takes token r (lookup token m) then some r else lookup token m)
unfolding merge_registration
lookup-merge_registration token r m =
    ground (arith, eq_iff r.token token, lookup-insert r.token token r m)

choice-le :
    (token : String) (r : PushRegistration) (p : Option PushRegistration)
    → renewed_at p ≤ renewed_at (if takes token r p then some r else p)
choice-le token r none = ground arith
choice-le token r (some cur) = ground arith

taken-le :
    (token : String) (r : PushRegistration) (p : Option PushRegistration)
    → (r.token == "") ≡ false
    → r.token ≡ token
    → r.seen ≤ renewed_at (if takes token r p then some r else p)
taken-le token r none h e = ground (arith, eq_iff r.token token)
taken-le token r (some cur) h e = ground (arith, eq_iff r.token token)

merge_push-le :
    (token : String) (rs : List PushRegistration) (m : Dict PushRegistration)
    → (renewed_at (lookup token m) ≤ renewed_at (lookup token (merge_push rs m)))
      × All
          (λ r.
            (r.token == "") ≡ false
            → r.token ≡ token
            → r.seen ≤ renewed_at (lookup token (merge_push rs m)))
          rs
unfolding merge_push
merge_push-le token [] m = (omega arith, tt)
merge_push-le token (r ∷ rs) m =
    let (later, rest) = merge_push-le token rs (merge_registration r m) in
    let e = lookup-merge_registration token r m in
    let le = rw (← e) at (choice-le token r (lookup token m)) in
    (
      omega (arith, le, later),
      (λ h t. omega (arith, rw (← e) at (taken-le token r (lookup token m) h t), later), rest),
    )

-- The newest word on a token wins: after a merge each token's registration is at least as new as the
-- one before, and as each one of the flash that names the token, the empty token aside.
pub merge_push-newest :
    (rs : List PushRegistration) (m : Dict PushRegistration) (r : PushRegistration)
    → Any (λ x. x ≡ r) rs
    → (r.token == "") ≡ false
    → let after = renewed_at (lookup r.token (merge_push rs m)) in
      (renewed_at (lookup r.token m) ≤ after) × (r.seen ≤ after)
merge_push-newest rs m r there named =
    let (old, all) = merge_push-le r.token rs m in (old, find rs there all)
  where
    find :
        (xs : List PushRegistration)
        → Any (λ x. x ≡ r) xs
        → All
            (λ x.
              (x.token == "") ≡ false
              → x.token ≡ r.token
              → x.seen ≤ renewed_at (lookup r.token (merge_push rs m)))
            xs
        → r.seen ≤ renewed_at (lookup r.token (merge_push rs m))
    find [] t h = absurd t
    find (x ∷ xs) (inl e) h =
        subst (λ (y : PushRegistration). y.seen ≤ renewed_at (lookup r.token (merge_push rs m))) e
          (h.0 (rw e named) (ap (λ (y : PushRegistration). y.token) e))
    find (x ∷ xs) (inr t) h = find xs t h.1
