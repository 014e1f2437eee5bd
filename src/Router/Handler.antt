-- ===== src/Router/Handler.antt =====
-- router.cpp: what no message can break.
use networking_labs.Prelude.{
  ℕ, Bool, true, false, ◌==◌, if◌then◌else◌, Bool-cases, Option-cases, inl, inr,
}
use networking_labs.Prelude.Map.{lookup_or}
use networking_labs.Router.Address.{IpAddr, is_internal_ip, in_range, ip_rev, first_match}
use networking_labs.Router.Nat.{translate_in, translate_out}
use networking_labs.Router.Nat.Invariant.{IsNat, release-IsNat}
use networking_labs.Router.Nat.Translation.{translate_out-Translated}
use networking_labs.Router.{
  Shared, Router, Message, dv_info, data_packet, trigger_dv, release_item, port_value, add_host,
  Outcome, sent, fault, route, on_data, answer_dv, on_dv, on_port_value, router,
}

-- What holds of the router that a handler leaves.
abbrev pub Leaves : (Router → Type 0) → Outcome → Type 0
Leaves P (sent g r m port) = P r
Leaves P fault = Unit

abbrev pub HasNat : Router → Type 0
HasNat r = IsNat r.nat

if-Leaves :
    (P : Router → Type 0) (b : Bool) (x y : Outcome)
    → Leaves P x
    → Leaves P y
    → Leaves P (if b then x else y)
if-Leaves P true x y h k = h
if-Leaves P false x y h k = k

route-IsNat :
    (g : Shared) (r : Router) (m : Message) (dst : IpAddr)
    → HasNat r
    → Leaves HasNat (route g r m dst)
unfolding route
route-IsNat g r m dst v = elim (Bool-cases (is_internal_ip dst)) [
  | inl internal ↦ elim (Bool-cases (lookup_or 0 dst g.host2_router == r.router_id)) [
    | inl here ↦ rw (internal, here) v
    | inr there ↦ rw (internal, there) v
  ]
  | inr external ↦ elim (Option-cases (first_match g.external_ip_table dst)) [
    | inl unknown ↦ rw (external, unknown) tt
    | inr (id, known) ↦ rw (external, known) v
  ]
]

on_data-IsNat :
    (g : Shared) (r : Router) (in_port : ℕ) (src dst : IpAddr)
    → HasNat r
    → Leaves HasNat (on_data g r in_port src dst)
unfolding on_data
on_data-IsNat g r in_port src dst v = elim (Bool-cases (ip_rev dst == 0)) [
  | inl none_given ↦ rw none_given v
  | inr given ↦ elim (Bool-cases (in_port == r.external_port)) [
    | inl outside ↦ elim (Option-cases (translate_in r.nat (ip_rev dst))) [
      | inl unknown ↦ rw (given, outside, unknown) v
      | inr (host, known) ↦ rw (given, outside, known) (route-IsNat g r _ host v)
    ]
    | inr inside ↦ elim (Bool-cases (in_range r.external_ip_min r.external_ip_max (ip_rev dst))) [
      | inr elsewhere ↦ rw (given, inside, elsewhere) (route-IsNat g r _ (ip_rev dst) v)
      | inl leaving ↦ elim (Bool-cases (r.external_port == 0)) [
        | inl no_port ↦ rw (given, inside, leaving, no_port) v
        | inr with_port ↦
            let x = translate_out r.nat (ip_rev src) in
            let v' = (translate_out-Translated r.nat (ip_rev src) v).in_order in
            elim (Bool-cases (x.1 == 0)) [
              | inl exhausted ↦ rw (given, inside, leaving, with_port, exhausted) v'
              | inr new ↦
                  rw (given, inside, leaving, with_port, new)
                    (route-IsNat g (record r { nat = x.0 }) _ (ip_rev dst) v')
            ]
      ]
    ]
  ]
]

answer_dv-IsNat :
    (quiet : Bool) (g : Shared) (r : Router) (m : Message)
    → HasNat r
    → Leaves HasNat (answer_dv quiet g r m)
unfolding answer_dv
answer_dv-IsNat quiet g r m v = if-Leaves HasNat quiet _ _ v v

-- Whatever message a router handles, the maps of its address translation stay inverse to each
-- other, no free address is in use and, zeros apart, none is free twice.
pub router-IsNat :
    (g : Shared) (r : Router) (in_port : ℕ) (m : Message)
    → HasNat r
    → Leaves HasNat (router g r in_port m)
unfolding router on_dv on_port_value
router-IsNat g r in_port (dv_info rid version row) v =
    if-Leaves HasNat (rid == r.router_id) _ _ v (answer_dv-IsNat _ _ _ _ v)
router-IsNat g r in_port (data_packet src dst) v = on_data-IsNat g r in_port src dst v
router-IsNat g r in_port trigger_dv v = v
router-IsNat g r in_port (release_item host) v = release-IsNat r.nat v host
router-IsNat g r in_port (port_value port value) v =
    if-Leaves HasNat (lookup_or 0 port r.port2_router_id == 0) _ _ v v
router-IsNat g r in_port (add_host port ip) v = v
