-- ===== src/Notify/Jwt.antt =====
-- The provider token of internal/notify/apns.go: the signing half of `bearer`, and `verifyJWT`. Bytes are
-- numbers; the encodings, SHA-256 and ECDSA are a record.
pub mod Verifies
use photinus.Prelude.{
  ℕ, zero, suc, ◌+◌, ◌*◌, ◌/◌, ◌%◌, ◌^◌, ltb, eqb, String, Bool, true, false, Option, none, some,
  List, [], ◌∷◌, ◌++◌, length, ℤ, sub_ℕ, Time, second, split, ◌<>◌, if◌then◌else◌,
}

-- `base64.RawURLEncoding`, `json.Marshal` of the header and of the claims, `sha256.Sum256`, `ecdsa.Sign`
-- with the key and `ecdsa.Verify` with its public half.
pub record Crypto : Type 0 where
  pub b64 : List ℕ → String
  pub unb64 : String → Option (List ℕ)
  pub header : String → List ℕ
  pub claims : String → ℤ → List ℕ
  pub digest : String → List ℕ
  pub sign : List ℕ → Option (ℕ × ℕ)
  pub verify : List ℕ → ℕ → ℕ → Bool

-- `now.Unix()`
abbrev unix : Time → ℤ
unix now = sub_ℕ (now / second) 62135596800

-- `x.FillBytes` of a buffer, the most significant byte first; x fits.
unfoldable pub fill_bytes : ℕ → ℕ → List ℕ
fill_bytes zero x = []
fill_bytes (suc w) x = fill_bytes w (x / 256) ++ x % 256 ∷ []

-- `SetBytes`
set_from : ℕ → List ℕ → ℕ
set_from x [] = x
set_from x (b ∷ bs) = set_from (x * 256 + b) bs

unfoldable pub set_bytes : List ℕ → ℕ
unfolding set_from
set_bytes bs = set_from 0 bs

-- The raw 64 bytes of a signature.
unfoldable pub raw : ℕ → ℕ → List ℕ
raw r s = fill_bytes 32 r ++ fill_bytes 32 s

unfoldable pub signing : Crypto → String → String → Time → String
signing c key_id team_id now = c.b64 (c.header key_id) <> "." <> c.b64 (c.claims team_id (unix now))

signed : Crypto → String → Option (ℕ × ℕ) → Option String
signed c text none = none
signed c text (some (r, s)) = some (text <> "." <> c.b64 (raw r s))

-- A new token, unless signing fails.
unfoldable pub sign_jwt : Crypto → String → String → Time → Option String
unfolding signed
sign_jwt c key_id team_id now =
    let text = signing c key_id team_id now in signed c text (c.sign (c.digest text))

-- `sig[:n]` and `sig[n:]`
unfoldable pub cut_at : ℕ → List ℕ → List ℕ × List ℕ
cut_at zero bs = ([], bs)
cut_at (suc n) [] = ([], [])
cut_at (suc n) (b ∷ bs) = let (front, back) = cut_at n bs in (b ∷ front, back)

unfoldable pub verify_raw : Crypto → String → Option (List ℕ) → Bool
verify_raw c text none = false
verify_raw c text (some sig) =
    let (r, s) = cut_at 32 sig in
    if eqb (length sig) 64 then c.verify (c.digest text) (set_bytes r) (set_bytes s) else false

unfoldable pub verify_parts : Crypto → List String → Bool
verify_parts c [] = false
verify_parts c (a ∷ []) = false
verify_parts c (a ∷ b ∷ []) = false
verify_parts c (a ∷ b ∷ sig ∷ []) = verify_raw c (a <> "." <> b) (c.unb64 sig)
verify_parts c (a ∷ b ∷ sig ∷ d ∷ rest) = false

unfoldable pub verify_jwt : Crypto → String → Bool
verify_jwt c token = verify_parts c (split b'.' token)
