-- ===== src/Notify/Jwt/Verifies.antt =====
-- A token that `bearer` signs verifies.
use photinus.Prelude.{
  ℕ, zero, suc, ◌+◌, ◌*◌, ◌/◌, ◌%◌, ◌^◌, ◌<◌, ◌≡◌, refl, ◌∙◌, ap, arith, String, Bool, true, false,
  Option, none, some, List, [], ◌∷◌, ◌++◌, length, Time, split, split-mark, split-whole, count_char,
  ◌<>◌,
}
use text.Mathlib.TextLemmas.{append_assoc}
use photinus.Notify.Jwt.{
  Crypto, fill_bytes, set_from, set_bytes, raw, signing, signed, sign_jwt, unix, cut_at, verify_raw,
  verify_parts, verify_jwt,
}

length-append : (xs ys : List ℕ) → length (xs ++ ys) ≡ length xs + length ys
length-append [] ys = omega arith
length-append (x ∷ xs) ys = omega (arith, length-append xs ys)

length-fill_bytes : (w x : ℕ) → length (fill_bytes w x) ≡ w
unfolding fill_bytes
length-fill_bytes zero x = refl
length-fill_bytes (suc w) x =
    omega
      (arith, length-append (fill_bytes w (x / 256)) (x % 256 ∷ []), length-fill_bytes w (x / 256))

set_from-append : (x b : ℕ) (bs : List ℕ) → set_from x (bs ++ b ∷ []) ≡ set_from x bs * 256 + b
unfolding set_from
set_from-append x b [] = refl
set_from-append x b (a ∷ bs) = set_from-append (x * 256 + a) b bs

set_bytes-fill_bytes : (w x : ℕ) → x < 256 ^ w → set_bytes (fill_bytes w x) ≡ x
unfolding set_bytes fill_bytes set_from
set_bytes-fill_bytes zero x h = omega arith
set_bytes-fill_bytes (suc w) x h =
    let ih : set_bytes (fill_bytes w (x / 256)) ≡ x / 256 =
      set_bytes-fill_bytes w (x / 256) (omega arith) in
    rw (set_from-append 0 (x % 256) (fill_bytes w (x / 256))) (omega (arith, ih))

cut_at-append : (n : ℕ) (xs ys : List ℕ) → length xs ≡ n → cut_at n (xs ++ ys) ≡ (xs, ys)
unfolding cut_at
cut_at-append zero [] ys h = refl
cut_at-append zero (x ∷ xs) ys h = absurd (omega (arith, h))
cut_at-append (suc n) [] ys h = absurd (omega (arith, h))
cut_at-append (suc n) (x ∷ xs) ys h = rw (cut_at-append n xs ys (omega (arith, h))) refl

verify_raw-raw :
    (c : Crypto) (text : String) (r s : ℕ)
    → r < 256 ^ 32
    → s < 256 ^ 32
    → verify_raw c text (some (raw r s)) ≡ c.verify (c.digest text) r s
unfolding verify_raw raw
verify_raw-raw c text r s small_r small_s =
    let cuts : cut_at 32 (fill_bytes 32 r ++ fill_bytes 32 s) ≡ (fill_bytes 32 r, fill_bytes 32 s) =
      cut_at-append 32 (fill_bytes 32 r) (fill_bytes 32 s) (length-fill_bytes 32 r) in
    let len : length (fill_bytes 32 r ++ fill_bytes 32 s) ≡ 64 = omega (
      arith,
      length-append (fill_bytes 32 r) (fill_bytes 32 s),
      length-fill_bytes 32 r,
      length-fill_bytes 32 s,
    ) in
    rw (cuts, len, set_bytes-fill_bytes 32 r small_r, set_bytes-fill_bytes 32 s small_s) refl

-- A dotted text of three parts that have no dot.
split-token :
    (a b d : String)
    → count_char b'.' a ≡ 0
    → count_char b'.' b ≡ 0
    → count_char b'.' d ≡ 0
    → split b'.' ((a <> "." <> b) <> "." <> d) ≡ a ∷ b ∷ d ∷ []
split-token a b d ha hb hd =
    rw (append_assoc a ("." <> b) ("." <> d), append_assoc "." b ("." <> d))
      (split-mark _ a (b <> "." <> d) ha
        ∙ ap (λ rest. a ∷ rest)
            (split-mark _ b d hb ∙ ap (λ rest. b ∷ rest) (split-whole b'.' d hd)))

-- The bytes of a signature that was found, and its check.
abbrev pub accepts : Crypto → Option String → Bool
accepts c none = false
accepts c (some token) = verify_jwt c token

-- The token that `bearer` signs passes `verifyJWT`, if base64 writes no dot and its decoder reads back
-- what it wrote, both numbers of the signature fit 32 bytes, and ECDSA verifies what it signed: the
-- padding of the numbers and the shape of the token lose nothing.
pub sign_jwt-verifies :
    (c : Crypto) (key_id team_id : String) (now : Time) (r s : ℕ)
    → ((bs : List ℕ) → count_char b'.' (c.b64 bs) ≡ 0)
    → c.unb64 (c.b64 (raw r s)) ≡ some (raw r s)
    → r < 256 ^ 32
    → s < 256 ^ 32
    → c.sign (c.digest (signing c key_id team_id now)) ≡ some (r, s)
    → c.verify (c.digest (signing c key_id team_id now)) r s ≡ true
    → accepts c (sign_jwt c key_id team_id now) ≡ true
unfolding sign_jwt signed verify_jwt verify_parts signing
sign_jwt-verifies c key_id team_id now r s plain decodes small_r small_s signs verifies =
    rw
      (
        signs,
        verify_jwt,
        split-token (c.b64 (c.header key_id)) (c.b64 (c.claims team_id (unix now)))
            (c.b64 (raw r s)) (plain _) (plain _) (plain _),
      )
      (rw decodes (verify_raw-raw c (signing c key_id team_id now) r s small_r small_s ∙ verifies))
