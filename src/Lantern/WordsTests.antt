-- ===== src/Lantern/WordsTests.antt =====
-- Runs of the payloads of one lantern at another, with a toy encoder that knows three envelopes.
use photinus.Prelude.{
  inl, inr, ◌≡◌, refl, sym, ◌∙◌, ap, String, Bool, true, false, ◌&&◌, Option, none, some, List, [],
  ◌∷◌, arith, eq_iff, ◌==◌, eqb, ℤ, pos, negsuc, Time, lookup, values, keep, is_some, if◌then◌else◌,
  Bool-cases, latest,
}
use photinus.Quorum.{Observation, state_up, state_warn, state_down}
use photinus.Lantern.State.{Lantern, Config, PushRegistration, new_lantern, store_key}
use photinus.Lantern.Merge.{merge}
use photinus.Lantern.Merge.Sync.{merge_is_latest, IsHonest, counts_at}
use photinus.Lantern.Receive.{Envelope, Payload, wrapped, garbled, receive}
use photinus.Lantern.Words.{batch_envelope, sync_envelope, sync_state, flash_chunks}
use photinus.Lantern.Words.Heard.{hear, flash_arrives, sync_converges}

same_ℤ : ℤ → ℤ → Bool
same_ℤ (pos a) (pos b) = eqb a b
same_ℤ (pos a) (negsuc b) = false
same_ℤ (negsuc a) (pos b) = false
same_ℤ (negsuc a) (negsuc b) = eqb a b

same_obs : Observation → Observation → Bool
unfolding same_ℤ
same_obs a b =
    a.observer == b.observer
    && a.target == b.target
    && a.check == b.check
    && a.state == b.state
    && a.detail == b.detail
    && eqb a.seen b.seen
    && same_ℤ a.ttl b.ttl

same_all : List Observation → List Observation → Bool
unfolding same_obs
same_all [] [] = true
same_all [] (b ∷ bs) = false
same_all (a ∷ as_) [] = false
same_all (a ∷ as_) (b ∷ bs) = same_obs a b && same_all as_ bs

same_time : Option Time → Option Time → Bool
same_time none none = true
same_time none (some b) = false
same_time (some a) none = false
same_time (some a) (some b) = eqb a b

no_regs : List PushRegistration → List PushRegistration → Bool
no_regs [] [] = true
no_regs [] (b ∷ bs) = false
no_regs (a ∷ as_) bs = false

same_envelope : Envelope → Envelope → Bool
unfolding same_ℤ same_all same_time no_regs
same_envelope a b =
    same_ℤ a.v b.v
    && same_all a.obs b.obs
    && a.leave == b.leave
    && a.forget == b.forget
    && no_regs a.push b.push
    && a.from == b.from
    && same_time a.sent b.sent

same_ℤ_path : (a b : ℤ) → same_ℤ a b ≡ true → a ≡ b
unfolding same_ℤ
same_ℤ_path (pos a) (pos b) h = ground arith
same_ℤ_path (pos a) (negsuc b) h = cc
same_ℤ_path (negsuc a) (pos b) h = cc
same_ℤ_path (negsuc a) (negsuc b) h = ground arith

same_obs_path : (a b : Observation) → same_obs a b ≡ true → a ≡ b
unfolding same_obs
same_obs_path a b h = ground (
  arith,
  eq_iff a.observer b.observer,
  eq_iff a.target b.target,
  eq_iff a.check b.check,
  eq_iff a.state b.state,
  eq_iff a.detail b.detail,
  same_ℤ_path a.ttl b.ttl,
)

same_all_path : (a b : List Observation) → same_all a b ≡ true → a ≡ b
unfolding same_all
same_all_path [] [] h = refl
same_all_path [] (b ∷ bs) h = cc
same_all_path (a ∷ as_) [] h = cc
same_all_path (a ∷ as_) (b ∷ bs) h = ground (arith, same_obs_path a b, same_all_path as_ bs)

same_time_path : (a b : Option Time) → same_time a b ≡ true → a ≡ b
unfolding same_time
same_time_path none none h = refl
same_time_path none (some b) h = cc
same_time_path (some a) none h = cc
same_time_path (some a) (some b) h = ground arith

no_regs_path : (a b : List PushRegistration) → no_regs a b ≡ true → a ≡ b
unfolding no_regs
no_regs_path [] [] h = refl
no_regs_path [] (b ∷ bs) h = cc
no_regs_path (a ∷ as_) bs h = cc

same_envelope_path : (a b : Envelope) → same_envelope a b ≡ true → a ≡ b
unfolding same_envelope
same_envelope_path a b h = ground (
  arith,
  same_ℤ_path a.v b.v,
  same_all_path a.obs b.obs,
  eq_iff a.leave b.leave,
  eq_iff a.forget b.forget,
  no_regs_path a.push b.push,
  eq_iff a.from b.from,
  same_time_path a.sent b.sent,
)

abbrev word : String → String → Time → Observation
word who state seen = record {
  observer = who;
  target = "web";
  check = "tcp";
  state = state;
  detail = "";
  seen = seen;
  ttl = pos 0;
}

abbrev blank : Config
blank = record {
  id = "a";
  interval = pos 2;
  max_age = pos 10;
  skew_max = pos 5;
  pulses = [];
  critical = [];
  blackout = pos 3;
}

-- Lantern "a" has its own word; "b" has an older one of it, and its own.
abbrev lamp_a : Lantern
lamp_a = record (new_lantern blank 1) { store = ("a|tcp|web", word "a" state_up 90) ∷ [] }

abbrev lamp_b : Lantern
lamp_b = record (new_lantern (record blank { id = "b" }) 1) {
  store = ("a|tcp|web", word "a" state_warn 80) ∷ ("b|tcp|web", word "b" state_down 95) ∷ [];
}

abbrev fresh : List Observation
fresh = word "a" state_up 96 ∷ word "a" state_down 97 ∷ []

-- The envelopes that the encoder knows.
abbrev from_a : Envelope
from_a = sync_envelope 100 lamp_a

abbrev from_b : Envelope
from_b = sync_envelope 101 lamp_b

abbrev flash_of_a : Envelope
flash_of_a = batch_envelope "a" 102 fresh

abbrev encode : Envelope → Option String
encode e =
    if same_envelope e from_a
    then some "1"
    else if same_envelope e from_b
    then some "2"
    else if same_envelope e flash_of_a
    then some "3"
    else none

abbrev decode : String → Payload
decode p =
    if p == "1"
    then wrapped from_a
    else if p == "2"
    then wrapped from_b
    else if p == "3"
    then wrapped flash_of_a
    else garbled

text_of : (t p : String) → some t ≡ some p → t ≡ p
text_of t p h = cc

read_as :
    (e known : Envelope) (t p : String)
    → some t ≡ some p
    → same_envelope e known ≡ true
    → decode t ≡ wrapped known
    → decode p ≡ wrapped e
read_as e known t p h a k =
    ap decode (sym (text_of t p h)) ∙ k ∙ ap wrapped (sym (same_envelope_path e known a))

read_back : (e : Envelope) (p : String) → encode e ≡ some p → decode p ≡ wrapped e
read_back e p h = elim (Bool-cases (same_envelope e from_a)) [
  | inl a ↦ read_as e from_a "1" p (rw a at h) a refl
  | inr a ↦ elim (Bool-cases (same_envelope e from_b)) [
    | inl b ↦ read_as e from_b "2" p (rw (a, b) at h) b refl
    | inr b ↦ elim (Bool-cases (same_envelope e flash_of_a)) [
      | inl c ↦ read_as e flash_of_a "3" p (rw (a, b, c) at h) c refl
      | inr c ↦ let k = rw (a, b, c) at h in cc
    ]
  ]
]

abbrev write_one : Observation → Option String
write_one o = some "{}"

flash_arrives_example :
    (hear decode (λ p. 103) (flash_chunks encode write_one 102 lamp_a fresh) lamp_b).store
    ≡ (merge (keep (λ o. is_some (write_one o)) fresh) lamp_b).store
unfolding same_envelope batch_envelope photinus.Lantern.Gossip.batches new_lantern
    photinus.Lantern.Gossip.envelope_size sync_envelope values
flash_arrives_example =
    flash_arrives encode decode read_back write_one (λ p. 103) 102 lamp_a lamp_b fresh (refl, tt)

lamp_b-IsHonest : IsHonest lamp_a lamp_b
unfolding lookup new_lantern
lamp_b-IsHonest k o e w = elim (Bool-cases ("a|tcp|web" == k)) [
  | inl q ↦ rw q (ground (arith, rw q at e))
  | inr q ↦ rw q (elim (Bool-cases ("b|tcp|web" == k)) [
    | inl r ↦
        let f = rw (q, r) at e in
        absurd (ground (arith, f, w, eq_iff o.observer "a", eq_iff "b" "a"))
    | inr r ↦ let f = rw (q, r) at e in absurd (cc)
  ])
]

lamp_a-IsHonest : IsHonest lamp_b lamp_a
unfolding lookup new_lantern
lamp_a-IsHonest k o e w = elim (Bool-cases ("a|tcp|web" == k)) [
  | inl q ↦
      let f = rw q at e in absurd (ground (arith, f, w, eq_iff o.observer "b", eq_iff "a" "b"))
  | inr q ↦ let f = rw q at e in absurd (cc)
]

sync_converges_example :
    lookup "a|tcp|web" (receive 104 (decode "2") lamp_a).0.store
    ≡ lookup "a|tcp|web" (receive 105 (decode "1") lamp_b).0.store
unfolding sync_state same_envelope sync_envelope values new_lantern store_key lookup
sync_converges_example =
    sync_converges encode decode read_back "a|tcp|web" lamp_a lamp_b 100 101 104 105 "1" "2" refl
      refl ((refl, tt), (refl, tt), (refl, (refl, tt)), (refl, (refl, tt)))
      ((refl, refl, refl), ((refl, refl, refl), tt)) ((refl, refl, refl), tt) lamp_b-IsHonest
      lamp_a-IsHonest (λ e. ground (arith, e))

merge_is_latest_example :
    lookup "b|tcp|web" (merge (values lamp_b.store) lamp_a).store
    ≡ latest
        (λ o. o.seen)
        (counts_at "a" "b|tcp|web")
        (values lamp_b.store)
        (lookup "b|tcp|web" lamp_a.store)
unfolding values new_lantern lookup
merge_is_latest_example =
    merge_is_latest "b|tcp|web" (values lamp_b.store) lamp_a
      ((refl, refl, refl), ((refl, refl, refl), tt))
