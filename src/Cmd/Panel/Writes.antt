-- ===== src/Cmd/Panel/Writes.antt =====
-- What the doors of cmd/photinus/panel.go write.
use photinus.Prelude.{
  ◌≡◌, refl, ◌⊎◌, inl, inr, arith, String, Bool, true, false, not, ◌&&◌, ◌||◌, Option, none, some,
  ◌==◌, ◌!=◌, Time, trim_prefix, take_bytes, if◌then◌else◌, Bool-cases,
}
use photinus.Lantern.State.{Lantern}
use photinus.Lantern.Status.{View}
use photinus.Lantern.Pulse.{pulse}
use photinus.Lantern.Push.{register_push}
use photinus.Cmd.Watch.{valid_pulse_name}
use photinus.Cmd.Panel.{
  HttpRequest, Response, Panel, valid_push_token, bearer_ok, door, recorded, pulse_inside, register,
  push_inside, status_door, pulse_door, push_door, serve,
}

module _ (p : Panel) (now : Time) where
  -- What may become of a lantern: nothing, a ping of a well-named pulse, or a registration of a
  -- well-formed token.
  abbrev pub IsAllowed : Lantern → Lantern → Type 0
  IsAllowed l l' =
      (l' ≡ l)
      ⊎ ((name : String) × (valid_pulse_name name ≡ true) × (l' ≡ (pulse p.stamp name now l).0))
      ⊎ ((token : String) × (env : String) × (valid_push_token token ≡ true)
          × ((env == "sandbox" || env == "production") ≡ true)
          × (l' ≡ register_push token env now l))

  data Writes (l : Lantern) (x : Lantern × Response) : Type 0 where
    writes : IsAllowed l x.0 → Writes l x

  allowed : {l : Lantern} {x : Lantern × Response} → Writes l x → IsAllowed l x.0
  allowed (writes h) = h

  either :
      {l : Lantern} (b : Bool) {x y : Lantern × Response}
      → Writes l x
      → Writes l y
      → Writes l (if b then x else y)
  either true h k = h
  either false h k = k

  door-Writes :
      (methods token : String) (r : HttpRequest) (l : Lantern) (inside : Lantern × Response)
      → Writes l inside
      → Writes l (door methods token r l inside)
  unfolding door
  door-Writes methods token r l inside h =
      either (r.method == "OPTIONS") (writes (inl refl))
        (either (token != "" && not (bearer_ok r token)) (writes (inl refl)) h)

  module _ (view : Option View) where
    pulse_inside-Writes :
        (r : HttpRequest) (name : String) (l : Lantern)
        → Writes l (pulse_inside p now view r name l)
    unfolding pulse_inside recorded
    pulse_inside-Writes r name l =
        either (r.method != "GET" && r.method != "POST") (writes (inl refl))
          (elim (Bool-cases (valid_pulse_name name)) [
            | inl v ↦ rw v (writes (inr (inl (name, v, refl))))
            | inr v ↦ rw v (writes (inl refl))
          ])

    register-Writes :
        (o : Option (String × String)) (l : Lantern) → Writes l (register p now view o l)
    unfolding register
    register-Writes none l = writes (inl refl)
    register-Writes (some (token, env)) l = elim (Bool-cases (valid_push_token token)) [
      | inl v ↦ elim (Bool-cases (env != "sandbox" && env != "production")) [
        | inl bad ↦ rw (v, bad) (writes (inl refl))
        | inr good ↦ rw (v, good) (writes (inr (inr (token, env, v, ground (arith, good), refl))))
      ]
      | inr v ↦ rw v (writes (inl refl))
    ]

    serve-Writes : (r : HttpRequest) (l : Lantern) → Writes l (serve p now view r l)
    unfolding serve status_door pulse_door push_door push_inside
    serve-Writes r l =
        either (r.path == "/status.json") (door-Writes _ p.token r l _ (writes (inl refl))) (
          either _
            (door-Writes _ p.token r l _ (pulse_inside-Writes r (trim_prefix r.path "/pulse/") l))
            (either (r.path == "/push/register")
              (door-Writes _ p.token r l _ (
                either (r.method != "POST") (writes (inl refl))
                  (register-Writes (p.decode (take_bytes 4096 r.body)) l)))
              (writes (inl refl))))

    -- Only well-formed words come in: whatever the call, the lantern stays as it is, records a ping of
    -- a pulse with a valid name, or registers a valid device token for one of Apple's two environments.
    pub only_valid_writes : (r : HttpRequest) (l : Lantern) → IsAllowed l (serve p now view r l).0
    only_valid_writes r l = allowed (serve-Writes r l)
