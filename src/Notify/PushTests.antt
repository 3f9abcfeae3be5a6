-- ===== src/Notify/PushTests.antt =====
-- The theorems on pages to phones at concrete inputs.
use photinus.Prelude.{
  ◌≡◌, refl, ◌⊎◌, ℕ, ◌*◌, String, Bool, true, false, ◌&&◌, List, [], ◌∷◌, Option, none, some, ◌==◌,
  minute,
}
use photinus.Prelude.{
  ℕ, ◌&&◌, ◌||◌, eqb, Option, some, none, List, [], ◌∷◌, arith, refl, ◌≡◌, true, false, Bool,
  String, ◌==◌,
}
use photinus.Notify.Jwt.{Crypto, raw, sign_jwt}
use photinus.Notify.Jwt.Verifies.{accepts, sign_jwt-verifies}
use photinus.Notify.Post.{post}
use photinus.Notify.Post.Ladder.{ladders_agree}
use photinus.Notify.Event.{Event}
use photinus.Notify.Apns.{Signer}
use photinus.Notify.RelaySender.{relay_one}
use photinus.Lantern.State.{PushRegistration}

abbrev old_signer : Signer
old_signer = record { jwt = "old"; jwt_at = 0 }

abbrev relays : List (String × Option ℕ)
relays =
    ("https://r1", none)
    ∷ ("https://r2", some 503)
    ∷ ("https://r3/", some 200)
    ∷ ("https://r4", some 200)
    ∷ []

third_delivers :
    (relay_one relays).0
    ≡ ("https://r1/relay", none)
      ∷ ("https://r2/relay", some 503)
      ∷ ("https://r3/relay", some 200)
      ∷ []
unfolding relay_one photinus.Prelude.trim_suffix
third_delivers = refl

abbrev phone : PushRegistration
phone = record { token = "0123456789abcdef"; env = "sandbox"; seen = 5 }

abbrev outage : Event
outage = record {
  kind = "down";
  check = "http";
  target = "https://shop.example";
  detail = "http on https://shop.example is down";
  critical = true;
}

-- A toy of the encodings and of ECDSA.
abbrev crypto : Crypto
crypto = record {
  b64 = λ bs. "sig";
  unb64 = λ s. some (raw 7 9);
  header = λ key_id. [];
  claims = λ team_id now. [];
  digest = λ s. [];
  sign = λ d. some (7, 9);
  verify = λ d r s. eqb r 7 && eqb s 9;
}

sign_jwt-verifies_example : accepts crypto (sign_jwt crypto "KEY" "TEAM" 0) ≡ true
unfolding photinus.Prelude.count_char
sign_jwt-verifies_example =
    sign_jwt-verifies crypto "KEY" "TEAM" 0 7 9 (λ bs. refl) refl (omega arith) (omega arith) refl
      refl

abbrev flapping : Event
flapping = record {
  kind = "flapping";
  check = "tcp";
  target = "db:5432";
  detail = "tcp on db:5432 flaps";
  critical = false;
}

ladders_agree_example :
    (((post "https://ntfy.example/t" "" flapping).x_priority == "urgent") ≡ false)
    × (((post "https://ntfy.example/t" "" flapping).x_priority == "urgent"
          || (post "https://ntfy.example/t" "" flapping).x_priority == "high")
        ≡ true)
unfolding photinus.Notify.Apns.payload photinus.Notify.Apns.apns_priority
    photinus.Notify.Apns.alert_payload
ladders_agree_example = ladders_agree "https://ntfy.example/t" "" flapping
