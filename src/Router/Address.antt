-- ===== src/Router/Address.antt =====
-- router.h: addresses, and the table of the routers' external networks.
pub mod Text
pub mod Cidr
pub mod Range
pub mod Longest
use Prim.Native.Nat.{bit_and, bit_or}
use networking_labs.Prelude.{
  ℕ, ◌*◌, ◌/◌, List, [], ◌∷◌, Option, none, some, Bool, ◌&&◌, leb, ◌==◌, if◌then◌else◌,
}

abbrev pub IpAddr : Type 0
IpAddr = ℕ

-- `IPRev`: the four bytes in the other order.
pub ip_rev : IpAddr → IpAddr
ip_rev ip =
    bit_or
      (bit_or (bit_or (bit_and ip 0xff * 0x1000000) (bit_and ip 0xff000000 / 0x1000000))
        (bit_and ip 0xff00 * 0x100))
      (bit_and ip 0xff0000 / 0x100)

abbrev pub in_range : IpAddr → IpAddr → IpAddr → Bool
in_range lo hi ip = leb lo ip && leb ip hi

abbrev internal_ip_min : IpAddr
internal_ip_min = 0x0a000000

abbrev internal_ip_max : IpAddr
internal_ip_max = 0x0affffff

pub is_internal_ip : IpAddr → Bool
is_internal_ip ip = in_range internal_ip_min internal_ip_max ip

-- `EXIPMATCHER`
pub record Matcher : Type 0 where
  pub id : ℕ
  pub subnet_ip : IpAddr
  pub musk : ℕ

pub matches : Matcher → IpAddr → Bool
matches m ip = bit_and ip m.musk == m.subnet_ip

-- `exIPMatchRouter`: `none` for -1.
pub first_match : List Matcher → IpAddr → Option ℕ
unfolding matches
first_match [] ip = none
first_match (m ∷ table) ip = if matches m ip then some m.id else first_match table ip
