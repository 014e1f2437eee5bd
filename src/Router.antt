-- ===== src/Router.antt =====
-- lab3-router-Heccc257/router.h and router.cpp: a router with address translation and a distance
-- vector. Its parts: addresses, translation, distance vector, and here the router itself.
pub mod Address
pub mod Nat
pub mod Distance
pub mod Text
pub mod Handler
pub mod Packet
mod Tests
use Prim.Native.Nat.{bit_xor}
use networking_labs.Prelude.{
  ℕ, ◌+◌, ◌-◌, ◌^◌, List, [], ◌∷◌, ◌++◌, Option, none, some, ◌>>=◌, Bool, true, false, not, ◌||◌,
  ◌&&◌, ◌==◌, if◌then◌else◌,
}
use networking_labs.Prelude.Int.{ℤ, pos, ◌==ℤ◌, minus_one}
use networking_labs.Prelude.Map.{Map, lookup, lookup_or, insert, erase}
use Address.Text.{cidr_to_ip}
use Address.{IpAddr, Matcher, ip_rev, is_internal_ip, in_range, first_match}
use Nat.{NatTable, release_nat_item, translate_in, translate_out, start_nat, init_addresses}
use Distance.{Dv, Fun, put, init_dv, receive_dv, update_c}

-- The static members, which all routers share.
pub record Shared : Type 0 where
  pub host2_router : Map ℕ
  pub external_ip_table : List Matcher
  pub tot_router_num : ℕ
  pub lst_change_version : ℕ

pub record Router : Type 0 where
  pub external_port : ℕ
  pub external_ip_min : IpAddr
  pub external_ip_max : IpAddr
  pub nat : NatTable
  pub host2_port : Map ℕ
  pub router_id : ℕ
  pub router_id2_port : Fun ℕ
  pub port2_router_id : Map ℕ
  pub port_len : Map (Option ℕ)
  pub dv : Dv

-- What a packet says: its type and, of a packet with text, what the text's words are. A cost of -1
-- is `none`. A data packet has its two addresses as they lie in the header.
pub data Message : Type 0 where
  dv_info : ℕ → ℕ → Fun ℕ → Message
  data_packet : IpAddr → IpAddr → Message
  trigger_dv : Message
  release_item : IpAddr → Message
  port_value : ℕ → Option ℕ → Message
  add_host : ℕ → IpAddr → Message

-- What `router` leaves and returns: the packet may have been rewritten. `fault` is an access outside
-- an array.
pub data Outcome : Type 0 where
  sent : Shared → Router → Message → ℤ → Outcome
  fault : Outcome

-- `IDM.Register`; `sort` stands for `std::sort` of the table.
pub register : (List Matcher → List Matcher) → Shared → IpAddr → ℕ → Shared
register sort g ip musk =
    let id = g.tot_router_num + 1 in
    if musk == 0 then record g { tot_router_num = id } else record g {
      tot_router_num = id;
      external_ip_table =
          sort (g.external_ip_table ++ record { id = id; subnet_ip = ip; musk = musk } ∷ []);
    }

-- `dvInfo`: the own row of the distance vector.
pub dv_message : Router → Message
dv_message r = dv_info r.router_id r.dv.version (r.dv.d r.router_id)

-- The port towards another router, 1 (the controller) where none is known.
pub to_router : Router → ℕ → ℤ
to_router r id =
    let next = r.dv.next_router id in
    if next == 0 || r.router_id2_port next == 0 then pos 1 else pos (r.router_id2_port next)

-- Where the packet goes once its addresses are translated. An address that no router has makes
-- `findNextRouter(-1)`.
pub route : Shared → Router → Message → IpAddr → Outcome
unfolding to_router
route g r packet dst =
    if not (is_internal_ip dst)
    then elim (first_match g.external_ip_table dst) [
      | none ↦ fault
      | some id ↦
          sent g r packet (if id == r.router_id then pos r.external_port else to_router r id)
    ]
    else (let id = lookup_or 0 dst g.host2_router in
        let g' : Shared = record g { host2_router = insert dst id g.host2_router } in
        if id == r.router_id
        then (let port = lookup_or 0 dst r.host2_port in
            sent g' (record r { host2_port = insert dst port r.host2_port }) packet (pos port))
        else sent g' r packet (to_router r id))

-- A data packet, with the addresses of its header.
pub on_data : Shared → Router → ℕ → IpAddr → IpAddr → Outcome
on_data g r in_port hd_src hd_dst =
    let packet = data_packet hd_src hd_dst in
    let dst = ip_rev hd_dst in
    if dst == 0
    then sent g r packet (pos 1)
    else if in_port == r.external_port
    then elim (translate_in r.nat dst) [
      | none ↦ sent g r packet minus_one
      | some host ↦ route g r (data_packet hd_src (ip_rev host)) host
    ]
    else if in_range r.external_ip_min r.external_ip_max dst
    then (if r.external_port == 0
        then sent g r packet minus_one
        else (let (nat, external) = translate_out r.nat (ip_rev hd_src) in
            let r' : Router = record r { nat = nat } in
            if external == 0
            then sent g r' packet minus_one
            else route g r' (data_packet (ip_rev external) hd_dst) dst))
    else route g r packet dst

-- Where nothing has changed the packet is dropped, else it carries the new row to all neighbours.
pub answer_dv : Bool → Shared → Router → Message → Outcome
unfolding dv_message
answer_dv quiet g r packet =
    if quiet then sent g r packet minus_one else sent g r (dv_message r) (pos 0)

-- A neighbour's distance vector.
pub on_dv : Shared → Router → ℕ → Message → ℕ → ℕ → Fun ℕ → Outcome
unfolding answer_dv
on_dv g r in_port packet rid version row =
    if rid == r.router_id
    then sent g r packet minus_one
    else (let cost : Option ℕ = lookup_or none in_port r.port_len in
        let ((edge, last), v) = update_c g.tot_router_num rid cost g.lst_change_version r.dv in
        let (v', changed) = receive_dv g.tot_router_num rid row version v in
        let g' : Shared = record g { lst_change_version = last } in
        let r' : Router = record r {
          dv = v';
          router_id2_port = put r.router_id2_port rid in_port;
          port2_router_id = insert in_port rid r.port2_router_id;
        } in
        answer_dv (not changed && edge ==ℤ pos 0) g' r' packet)

-- The cost of a port changes; with no cost the link is gone.
pub on_port_value : Shared → Router → Message → ℕ → Option ℕ → Outcome
on_port_value g r packet port value =
    let id = lookup_or 0 port r.port2_router_id in
    let r' : Router = record r {
      port_len = insert port value r.port_len;
      port2_router_id = insert port id r.port2_router_id;
    } in
    if id == 0
    then sent g r' packet minus_one
    else (let ((edge, last), v) = update_c g.tot_router_num id value g.lst_change_version r.dv in
        sent (record g { lst_change_version = last })
          (record r' {
            dv = v;
            port2_router_id = elim value [
              | none ↦ erase port r'.port2_router_id
              | some k ↦ r'.port2_router_id
            ];
          })
          packet minus_one)

-- `router`
pub router : Shared → Router → ℕ → Message → Outcome
unfolding dv_message on_data on_dv on_port_value
router g r in_port (dv_info rid version row) =
    on_dv g r in_port (dv_info rid version row) rid version row
router g r in_port (data_packet src dst) = on_data g r in_port src dst
router g r in_port trigger_dv = sent g r (dv_message r) (pos 0)
router g r in_port (release_item host) =
    sent g (record r { nat = release_nat_item host r.nat }) (release_item host) minus_one
router g r in_port (port_value port value) = on_port_value g r (port_value port value) port value
router g r in_port (add_host port ip) =
    sent (record g { host2_router = insert ip r.router_id g.host2_router })
      (record r { host2_port = insert ip port r.host2_port }) (add_host port ip) minus_one

-- `router_init` once its two addresses have been read.
unfoldable pub init_with :
    (List Matcher → List Matcher)
    → Shared
    → ℕ
    → Option (IpAddr × IpAddr)
    → Option (IpAddr × IpAddr)
    → Shared × Router
unfolding register
init_with sort g external_port external available =
    let (lo, hi) : IpAddr × IpAddr = elim external [ none ↦ (0, 0) | some x ↦ x ] in
    let g' : Shared = elim external [
      | none ↦ register sort g 0 0
      | some x ↦ register sort g x.0 (2 ^ 32 - 1 - bit_xor x.1 x.0)
    ] in
    (
      g',
      record {
        external_port = external_port;
        external_ip_min = lo;
        external_ip_max = hi;
        nat = start_nat (elim available [ none ↦ [] | some x ↦ init_addresses x.0 x.1 ]);
        host2_port = [];
        router_id = g'.tot_router_num;
        router_id2_port = λ i. 0;
        port2_router_id = [];
        port_len = [];
        dv = init_dv g'.tot_router_num;
      },
    )

-- An address that may be absent; `none` where its mask is undefined.
unfoldable pub read_range : Option (List ℕ) → Option (Option (IpAddr × IpAddr))
read_range none = some none
read_range (some ipaddr) = cidr_to_ip ipaddr >>= λ range. some (some range)

-- `router_init`
unfoldable pub router_init :
    (List Matcher → List Matcher)
    → Shared
    → ℕ
    → Option (List ℕ)
    → Option (List ℕ)
    → Option (Shared × Router)
router_init sort g external_port external_addr available_addr = do
  external ← read_range external_addr
  available ← read_range available_addr
  some (init_with sort g external_port external available)
