-- ===== src/Router/Nat.antt =====
-- router.h and router.cpp: the addresses that a router can give to its hosts, and which host has
-- which.
pub mod Invariant
pub mod Translation
use networking_labs.Prelude.{
  ℕ, zero, suc, ◌+◌, ◌-◌, ◌≤◌, ◌<◌, ◌≡◌, ◌≢◌, refl, List, [], ◌∷◌, ◌++◌, Option, none, some, arith,
  replicate, ◌==◌, if◌then◌else◌, All, Option-cases, inl, inr, sym, ap, ◌∙◌, ◌⊎◌,
}
use networking_labs.Prelude.Map.{Map, lookup, insert, erase, lookup-insert, lookup-erase}
use networking_labs.Router.Address.{IpAddr}

-- `address` is the vector of `availAddrAllocator` from its back to its front.
pub record NatTable : Type 0 where
  pub address : List IpAddr
  pub host2_extern_ip : Map IpAddr
  pub extern_ip2_host : Map IpAddr

-- The addresses `ip`, `ip + 1`, … are pushed one after another, n of them.
unfoldable pub push_range : ℕ → IpAddr → List IpAddr → List IpAddr
push_range zero ip address = address
push_range (suc n) ip address = push_range n (ip + 1) (ip ∷ address)

-- `Init`: `resize` fills a new vector with zeros, and the addresses come after them.
unfoldable pub init_addresses : IpAddr → IpAddr → List IpAddr
unfolding push_range
init_addresses ip_min ip_max =
    push_range (ip_max + 1 - ip_min) ip_min (replicate (ip_max - ip_min + 1) 0)

unfoldable pub start_nat : List IpAddr → NatTable
start_nat address = record { address = address; host2_extern_ip = []; extern_ip2_host = [] }

-- `alloc`: 0 where nothing is left.
pub alloc : List IpAddr → List IpAddr × IpAddr
alloc [] = ([], 0)
alloc (ip ∷ address) = (address, ip)

-- `releaseNATItem`
pub release_nat_item : IpAddr → NatTable → NatTable
release_nat_item internal t = elim (lookup internal t.host2_extern_ip) [
  | none ↦ t
  | some external ↦ record {
    address = external ∷ t.address;
    extern_ip2_host = erase external t.extern_ip2_host;
    host2_extern_ip = erase internal t.host2_extern_ip;
  }
]

-- The host that an external address stands for, if any.
unfoldable pub translate_in : NatTable → IpAddr → Option IpAddr
translate_in t external = lookup external t.extern_ip2_host

-- The two assignments for a host that goes out under `external`.
abbrev pub bind_nat : IpAddr → IpAddr → NatTable → NatTable
bind_nat host external t = record t {
  extern_ip2_host = insert external host t.extern_ip2_host;
  host2_extern_ip = insert host external t.host2_extern_ip;
}

-- The external address of a host, its own or a new one; with 0 the packet is dropped.
unfoldable pub translate_out : NatTable → IpAddr → NatTable × IpAddr
unfolding alloc
translate_out t host = elim (lookup host t.host2_extern_ip) [
  | some external ↦ if external == 0 then (t, 0) else (bind_nat host external t, external)
  | none ↦
      let (address, external) = alloc t.address in
      let t' : NatTable = record t { address = address } in
      if external == 0 then (t', 0) else (bind_nat host external t', external)
]
