-- ===== src/Notify/Elect.antt =====
-- `Elect` of internal/notify/notify.go: rendezvous hashing. `hash` stands for the first eight bytes
-- of SHA-256, read big-endian; nothing is asked of it.
use Prim.Native.Char.{nul}
use photinus.Prelude.{
  ℕ, ◌≡◌, refl, sym, subst, ◌∙◌, ◌≢◌, inl, inr, String, Bool, true, false, ◌&&◌, ◌||◌, List, [],
  ◌∷◌, arith, eq_iff, ltb, eqb, ◌==◌, ◌<>◌, str_ltb, str_lt_irrefl, str_lt_asymm, str_lt_total,
  str_le_trans, contains, All, Distinct, count, if◌then◌else◌, Bool-cases,
}

-- "\x00"
abbrev zero_byte : String
zero_byte = String.◌∷◌ nul String.[]

-- Names are not empty: an empty one would be taken for "nobody yet".
abbrev pub Named : List String → Type 0
Named = All (λ id. (id == "") ≡ false)

-- One list has every member of the other.
abbrev pub Within : List String → List String → Type 0
Within xs ys = (s : String) → contains xs s ≡ true → contains ys s ≡ true

module _ (hash : String → ℕ) where
  pub score : String → String → ℕ
  score alert id = hash (id <> zero_byte <> alert)

  -- A higher score wins, and a later name where the scores are one.
  beats : String → String → String → Bool
  beats alert id winner =
      ltb (score alert winner) (score alert id)
      || (eqb (score alert id) (score alert winner) && str_ltb winner id)

  elect_loop : String → List String → String → ℕ → String
  unfolding score
  elect_loop alert [] winner best = winner
  elect_loop alert (id ∷ ids) winner best =
      let s = score alert id in
      let better = winner == "" || ltb best s || (eqb s best && str_ltb winner id) in
      elect_loop alert ids (if better then id else winner) (if better then s else best)

  unfoldable pub elect : String → List String → String
  unfolding elect_loop
  elect alert alive = elect_loop alert alive "" 0

  beats_trans :
      (alert a b c : String)
      → beats alert a b ≡ false
      → beats alert b c ≡ false
      → beats alert a c ≡ false
  unfolding beats
  beats_trans alert a b c p q = ground (arith, str_le_trans a b c)

  beats_total : (alert a b : String) → beats alert a b ≡ false → beats alert b a ≡ false → a ≡ b
  unfolding beats
  beats_total alert a b p q = ground (arith, str_lt_total a b)

  beats_asymm : (alert a b : String) → beats alert a b ≡ true → beats alert b a ≡ false
  unfolding beats
  beats_asymm alert a b h = ground (arith, str_lt_asymm b a)

  beats_irrefl : (alert a : String) → beats alert a a ≡ false
  unfolding beats
  beats_irrefl alert a = ground (arith, str_lt_irrefl a)

  abbrev champion : String → List String → String → String
  champion alert ids winner = elect_loop alert ids winner (score alert winner)

  champion_next :
      (alert id winner : String) (ids : List String)
      → (winner == "") ≡ false
      → champion alert (id ∷ ids) winner
        ≡ champion alert ids (if beats alert id winner then id else winner)
  unfolding elect_loop beats
  champion_next alert id winner ids w = ground arith

  -- `x` is no better than `winner`.
  abbrev Beaten : String → String → String → Type 0
  Beaten alert winner x = beats alert x winner ≡ false

  -- The loop ends with the best of what it starts from and what it reads.
  champion_best :
      (alert : String) (ids : List String) (winner : String)
      → All (λ id. (id == "") ≡ false) ids
      → (winner == "") ≡ false
      → Beaten alert (champion alert ids winner) winner
        × All (Beaten alert (champion alert ids winner)) ids
  unfolding elect_loop
  champion_best alert [] winner n w = (beats_irrefl alert winner, tt)
  champion_best alert (id ∷ ids) winner n w = elim (Bool-cases (beats alert id winner)) [
    | inl wins ↦
        let (top, all) = champion_best alert ids id n.1 n.0 in
        subst best (sym (rw wins at next))
          (beats_trans alert winner id _ (beats_asymm alert id winner wins) top, (top, all))
    | inr loses ↦
        let (top, all) = champion_best alert ids winner n.1 w in
        subst best (sym (rw loses at next)) (top, (beats_trans alert id winner _ loses top, all))
  ]
    where
      best : String → Type 0
      best r = Beaten alert r winner × All (Beaten alert r) (id ∷ ids)

      next :
          champion alert (id ∷ ids) winner
          ≡ champion alert ids (if beats alert id winner then id else winner)
      next = champion_next alert id winner ids w

  champion_among :
      (alert : String) (ids : List String) (winner : String)
      → All (λ id. (id == "") ≡ false) ids
      → (winner == "") ≡ false
      → contains (winner ∷ ids) (champion alert ids winner) ≡ true
  unfolding elect_loop contains
  champion_among alert [] winner n w = ground (arith, eq_iff winner winner)
  champion_among alert (id ∷ ids) winner n w =
      rw (champion_next alert id winner ids w) (elim (Bool-cases (beats alert id winner)) [
        | inl wins ↦ rw wins (ground (arith, champion_among alert ids id n.1 n.0))
        | inr loses ↦ rw loses (ground (arith, champion_among alert ids winner n.1 w))
      ])

  elect_first :
      (alert id : String) (ids : List String) → elect alert (id ∷ ids) ≡ champion alert ids id
  unfolding elect
  elect_first alert id ids = refl

  elect_best :
      (alert : String) (alive : List String)
      → Named alive
      → All (Beaten alert (elect alert alive)) alive
  unfolding elect elect_loop
  elect_best alert [] n = tt
  elect_best alert (id ∷ ids) n = champion_best alert ids id n.1 n.0

  -- The lantern that is elected is alive, whenever one is.
  pub elect-mem :
      (alert : String) (alive : List String)
      → Named alive
      → alive ≢ []
      → contains alive (elect alert alive) ≡ true
  elect-mem alert [] n h = absurd (h refl)
  elect-mem alert (id ∷ ids) n h =
      rw (elect_first alert id ids) (champion_among alert ids id n.1 n.0)

  Beaten-mem :
      (alert winner x : String) (ids : List String)
      → All (Beaten alert winner) ids
      → contains ids x ≡ true
      → Beaten alert winner x
  unfolding contains
  Beaten-mem alert winner x [] h m = cc
  Beaten-mem alert winner x (id ∷ ids) h m = elim (Bool-cases (id == x)) [
    | inl e ↦ subst (Beaten alert winner) ((eq_iff id x).0 e) h.0
    | inr e ↦ Beaten-mem alert winner x ids h.1 (rw e at m)
  ]

  -- Removing lanterns that lost does not change the winner: the survivors elect the same one as long
  -- as it is among them, in whatever order each of them lists the swarm.
  pub elect_stable :
      (alert : String) (alive survivors : List String)
      → Named alive
      → Named survivors
      → Within survivors alive
      → contains survivors (elect alert alive) ≡ true
      → elect alert survivors ≡ elect alert alive
  elect_stable alert alive [] n k w m = absurd (unfold contains in cc)
  elect_stable alert alive (s ∷ ss) n k w m =
      let top = elect alert (s ∷ ss) in
      beats_total alert top (elect alert alive)
        (Beaten-mem alert (elect alert alive) top alive (elect_best alert alive n)
          (w top (elect-mem alert (s ∷ ss) k (λ e. cc))))
        (Beaten-mem alert top (elect alert alive) (s ∷ ss) (elect_best alert (s ∷ ss) k) m)

  count_self :
      (x : String) (xs : List String)
      → Distinct xs
      → count (λ self. self == x) xs ≡ (if contains xs x then 1 else 0)
  unfolding count contains
  count_self x [] d = refl
  count_self x (y ∷ ys) d = ground (arith, eq_iff y x, count_self x ys d.1)

  pub elect_exactly_one :
      (alert : String) (alive : List String)
      → Named alive
      → Distinct alive
      → alive ≢ []
      → count (λ self. self == elect alert alive) alive ≡ 1
  elect_exactly_one alert alive n d h =
      count_self (elect alert alive) alive d ∙ (rw (elect-mem alert alive n h))
