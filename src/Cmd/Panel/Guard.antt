-- ===== src/Cmd/Panel/Guard.antt =====
-- What the token of cmd/photinus/panel.go guards.
use photinus.Prelude.{
  ◌≡◌, refl, String, Bool, true, false, Option, ◌==◌, Time, has_prefix, if◌then◌else◌,
}
use photinus.Lantern.State.{Lantern}
use photinus.Lantern.Status.{View}
use photinus.Cmd.Panel.{
  HttpRequest, Response, Panel, bearer_ok, door, status_door, pulse_door, push_door, static_answer,
  serve,
}

-- The lantern is as it was, and the answer the same as in another case.
data Shut (l : Lantern) (x y : Lantern × Response) : Type 0 where
  shut : (x.0 ≡ l) × (x.1 ≡ y.1) → Shut l x y

opened : {l : Lantern} {x y : Lantern × Response} → Shut l x y → (x.0 ≡ l) × (x.1 ≡ y.1)
opened (shut h) = h

either :
    {l : Lantern} (b : Bool) {x x' y y' : Lantern × Response}
    → Shut l x y
    → Shut l x' y'
    → Shut l (if b then x else x') (if b then y else y')
either true h k = h
either false h k = k

-- Behind a door without the token nothing of the inside is seen.
door-Shut :
    (allowed token : String) (r : HttpRequest) (l l' : Lantern)
    (inside inside' : Lantern × Response)
    → (token == "") ≡ false
    → bearer_ok r token ≡ false
    → Shut l (door allowed token r l inside) (door allowed token r l' inside')
unfolding door
door-Shut allowed token r l l' inside inside' t b =
    rw (t, b) (either (r.method == "OPTIONS") (shut (refl, refl)) (shut (refl, refl)))

serve-Shut :
    (p : Panel) (now now' : Time) (view view' : Option View) (r : HttpRequest) (l l' : Lantern)
    → (p.token == "") ≡ false
    → bearer_ok r p.token ≡ false
    → Shut l (serve p now view r l) (serve p now' view' r l')
unfolding serve status_door pulse_door push_door static_answer
serve-Shut p now now' view view' r l l' t b =
    either (r.path == "/status.json") (door-Shut "Authorization" p.token r l l' _ _ t b) (
      either (has_prefix r.path "/pulse/") (door-Shut "Authorization" p.token r l l' _ _ t b) (
        either (r.path == "/push/register")
          (door-Shut "Authorization, Content-Type" p.token r l l' _ _ t b) (shut (refl, refl))))

-- Nothing without the token: where the panel has one, a call that does not carry it changes nothing of
-- the lantern, and its answer does not depend on the lantern, the swarm or the time: it tells nothing.
pub no_token_no_data :
    (p : Panel) (now now' : Time) (view view' : Option View) (r : HttpRequest) (l l' : Lantern)
    → (p.token == "") ≡ false
    → bearer_ok r p.token ≡ false
    → ((serve p now view r l).0 ≡ l) × ((serve p now view r l).1 ≡ (serve p now' view' r l').1)
no_token_no_data p now now' view view' r l l' t b =
    opened (serve-Shut p now now' view view' r l l' t b)
