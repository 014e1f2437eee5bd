-- ===== src/Router/Packet/Forward.antt =====
-- router.cpp: a data packet that is sent on differs in its addresses alone.
use networking_labs.Prelude.{ℕ, ◌≡◌, ◌≢◌, List, none, some, true, false, drop, length}
use networking_labs.Prelude.Int.{ℤ, pos, minus_one}
use networking_labs.Router.Address.{IpAddr, in_range, ip_rev}
use networking_labs.Router.Nat.{NatTable, translate_in, translate_out}
use networking_labs.Router.{Shared, Router, Message, data_packet, Outcome, sent, fault}
use networking_labs.Router.Packet.{read_header}

-- What becomes of the two addresses, of the translation table and of the packet: `port` is where it goes.
pub data IsTranslated (r : Router) (in_port : ℕ) (src dst : IpAddr)
    : NatTable → ℤ → IpAddr → IpAddr → Type 0 where
  no_destination : ip_rev dst ≡ 0 → IsTranslated r in_port src dst r.nat (pos 1) src dst
  inward :
      (host : IpAddr) (port : ℤ)
      → ip_rev dst ≢ 0
      → in_port ≡ r.external_port
      → translate_in r.nat (ip_rev dst) ≡ some host
      → IsTranslated r in_port src dst r.nat port src (ip_rev host)
  no_host :
      ip_rev dst ≢ 0
      → in_port ≡ r.external_port
      → translate_in r.nat (ip_rev dst) ≡ none
      → IsTranslated r in_port src dst r.nat minus_one src dst
  no_way_out :
      ip_rev dst ≢ 0
      → in_port ≢ r.external_port
      → in_range r.external_ip_min r.external_ip_max (ip_rev dst) ≡ true
      → r.external_port ≡ 0
      → IsTranslated r in_port src dst r.nat minus_one src dst
  none_free :
      ip_rev dst ≢ 0
      → in_port ≢ r.external_port
      → in_range r.external_ip_min r.external_ip_max (ip_rev dst) ≡ true
      → (translate_out r.nat (ip_rev src)).1 ≡ 0
      → IsTranslated r in_port src dst (translate_out r.nat (ip_rev src)).0 minus_one src dst
  outward :
      (port : ℤ)
      → ip_rev dst ≢ 0
      → in_port ≢ r.external_port
      → in_range r.external_ip_min r.external_ip_max (ip_rev dst) ≡ true
      → (translate_out r.nat (ip_rev src)).1 ≢ 0
      → IsTranslated r in_port src dst
          (translate_out r.nat (ip_rev src)).0
          port
          (ip_rev (translate_out r.nat (ip_rev src)).1)
          dst
  inside :
      (port : ℤ)
      → ip_rev dst ≢ 0
      → in_port ≢ r.external_port
      → in_range r.external_ip_min r.external_ip_max (ip_rev dst) ≡ false
      → IsTranslated r in_port src dst r.nat port src dst

-- A data packet is left of which Q says something, or the handler has gone outside an array.
data IsForwarded (Q : NatTable → ℤ → IpAddr → IpAddr → Type 0) : Outcome → Type 0 where
  passes :
      (g : Shared) (r : Router) (src dst : IpAddr) (port : ℤ)
      → Q r.nat port src dst
      → IsForwarded Q (sent g r (data_packet src dst) port)
  outside : IsForwarded Q fault

-- The same bytes but for the two addresses.
pub record SameBytes (packet packet' : List ℕ) : Type 0 where
  pub same_length : length packet' ≡ length packet
  pub same_rest : drop 8 packet' ≡ drop 8 packet
  pub same_type : (read_header packet').type ≡ (read_header packet).type
  pub same_text : (read_header packet').length ≡ (read_header packet).length
