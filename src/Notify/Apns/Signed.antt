-- ===== src/Notify/Apns/Signed.antt =====
-- The signing token of internal/notify/apns.go over its life.
use photinus.Prelude.{
  ◌≡◌, refl, ◌⊎◌, inl, inr, ◌*◌, arith, eq_iff, String, Bool, true, false, ◌&&◌, Option, none, some,
  pos, ltb_ℤ, Time, minute, since, ◌==◌, ◌!=◌, Bool-cases,
}
use photinus.Notify.Apns.{Signer, resigned, bearer}

-- The kept token is young enough.
abbrev pub is_young : Time → Signer → Bool
is_young now s = ltb_ℤ (since now s.jwt_at) (pos (50 * minute))

just_now : (now : Time) → ltb_ℤ (since now now) (pos (50 * minute)) ≡ true
unfolding since
just_now now = ground arith

the_token : (a b : String) → some a ≡ some b → a ≡ b
the_token a b e = cc

-- A token that was signed anew.
resigned_lem :
    (now : Time) (s : Signer) (o : Option String) (jwt : String)
    → (resigned now s o).1 ≡ some jwt
    → ((resigned now s o).0.jwt ≡ jwt) × (is_young now (resigned now s o).0 ≡ true)
unfolding resigned
resigned_lem now s none jwt h = absurd (cc)
resigned_lem now s (some fresh) jwt h = (the_token fresh jwt h, just_now now)

-- Apple takes a token between twenty minutes and one hour: a token that is handed out was signed less
-- than fifty minutes ago, and a token is replaced by another only once it is fifty minutes old, or was
-- never signed.
pub bearer_is_paced :
    (sign : Time → Option String) (now : Time) (s : Signer) (jwt : String)
    → (bearer sign now s).1 ≡ some jwt
    → ((bearer sign now s).0.jwt ≡ jwt)
      × (is_young now (bearer sign now s).0 ≡ true)
      × (((bearer sign now s).0 ≡ s) ⊎ ((s.jwt ≡ "") ⊎ (is_young now s ≡ false)))
unfolding bearer
bearer_is_paced sign now s jwt h = elim (Bool-cases (s.jwt != "" && is_young now s)) [
  | inl y ↦ rw y (the_token s.jwt jwt (rw y at h), ground (arith, y), inl refl)
  | inr n ↦
      let (kept, young) = resigned_lem now s (sign now) jwt (rw n at h) in
      rw n (kept, young, inr (why n))
]
  where
    why : (s.jwt != "" && is_young now s) ≡ false → (s.jwt ≡ "") ⊎ (is_young now s ≡ false)
    why n = elim (Bool-cases (s.jwt == "")) [
      | inl e ↦ inl ((eq_iff s.jwt "").0 e)
      | inr e ↦ inr (ground (arith, n, e))
    ]
