-- ===== src/Swarm/Advertise.antt =====
-- The choice of an address to advertise in `Join` of internal/swarm/swarm.go, from what DNS answered.
-- The kinds of an address are read off by Go's net package; they are fields here.
use photinus.Prelude.{
  ◌≡◌, refl, ap, ◌∙◌, String, Bool, true, false, not, ◌&&◌, ◌||◌, Option, none, some, List, [], ◌∷◌,
  arith, if◌then◌else◌,
}

pub record Ip : Type 0 where
  pub text : String
  pub loopback : Bool
  pub link_local : Bool
  pub v4 : Bool

abbrev pub is_routable : Ip → Bool
is_routable ip = not (ip.loopback || ip.link_local)

-- `picked == nil || (picked.To4() == nil && ip.To4() != nil)`
abbrev improves : Option Ip → Ip → Bool
improves none ip = true
improves (some picked) ip = not picked.v4 && ip.v4

unfoldable pub pick : List Ip → Option Ip → Option Ip
pick [] picked = picked
pick (ip ∷ ips) picked =
    if ip.loopback || ip.link_local
    then pick ips picked
    else if improves picked ip
    then pick ips (some ip)
    else pick ips picked

-- What stands in where there is nothing.
abbrev pub or_else : Option Ip → Option Ip → Option Ip
or_else (some x) y = some x
or_else none y = y

-- `outboundIP` is asked only when no address is routable; its answer is `out`.
unfoldable pub advertise_ip : List Ip → Option Ip → Option Ip
advertise_ip ips out = or_else (pick ips none) out

-- The first entry that passes a test.
unfoldable pub first : (Ip → Bool) → List Ip → Option Ip
first p [] = none
first p (ip ∷ ips) = let rest = first p ips in if p ip then some ip else rest

pick-v4 : (ips : List Ip) (x : Ip) → x.v4 ≡ true → pick ips (some x) ≡ some x
unfolding pick
pick-v4 [] x h = refl
pick-v4 (ip ∷ ips) x h = ground (arith, pick-v4 ips x h)

pick-v6 :
    (ips : List Ip) (x : Ip)
    → x.v4 ≡ false
    → pick ips (some x) ≡ or_else (first (λ ip. is_routable ip && ip.v4) ips) (some x)
unfolding pick first
pick-v6 [] x h = refl
pick-v6 (ip ∷ ips) x h = ground (arith, pick-v6 ips x h, pick-v4 ips ip)

pick-first :
    (ips : List Ip)
    → pick ips none ≡ or_else (first (λ ip. is_routable ip && ip.v4) ips) (first is_routable ips)
unfolding pick first
pick-first [] = refl
pick-first (ip ∷ ips) = ground (arith, pick-first ips, pick-v4 ips ip, pick-v6 ips ip)

or_else_assoc : (x y z : Option Ip) → or_else (or_else x y) z ≡ or_else x (or_else y z)
or_else_assoc none y z = refl
or_else_assoc (some x) y z = refl

-- The address advertised is the first routable IPv4 address of the host, or else its first routable
-- address, or else the outbound one: never a loopback or self-assigned one, in whatever order DNS
-- answers.
pub advertise_ip-first :
    (ips : List Ip) (out : Option Ip)
    → advertise_ip ips out
      ≡ or_else (first (λ ip. is_routable ip && ip.v4) ips) (or_else (first is_routable ips) out)
unfolding advertise_ip
advertise_ip-first ips out =
    ap (λ x. or_else x out) (pick-first ips)
    ∙ or_else_assoc (first (λ ip. is_routable ip && ip.v4) ips) (first is_routable ips) out
