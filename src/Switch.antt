-- ===== src/Switch.antt =====
-- lab4-switch-Heccc257/switch.cc, switch.h and types.h: a learning Ethernet switch with aging.
pub mod Address
pub mod Aging
pub mod History
mod Tests
use Prim.Native.Nat.{bit_or}
use networking_labs.Prelude.{
  ℕ, ◌+◌, ◌*◌, ◌<◌, ◌≡◌, Bool, Option, none, some, List, [], ◌∷◌, ◌==◌, if◌then◌else◌, take, length,
}
use networking_labs.Prelude.Int.{ℤ, pos, negsuc, ◌-ℤ◌, ◌==ℤ◌, minus_one}
use networking_labs.Prelude.Map.{Map, lookup, insert, erase}

-- types.h. A `mac_addr_t` is its six bytes.
abbrev pub MacAddr : Type 0
MacAddr = List ℕ

abbrev pub eth_alen : ℕ
eth_alen = 6

abbrev pub ether_control_type : ℕ
ether_control_type = 1

abbrev pub ether_mac_aging_threshold : ℤ
ether_mac_aging_threshold = pos 10

pub record EtherHeader : Type 0 where
  pub ether_dest : MacAddr
  pub ether_src : MacAddr
  pub ether_type : ℕ
  pub ether_length : ℕ

-- The loop of `macAddr2Long`: `ans = (ans << 8) | addr[i]`.
mac_loop : ℕ → MacAddr → ℕ
mac_loop ans [] = ans
mac_loop ans (b ∷ bs) = mac_loop (bit_or (ans * 256) b) bs

pub mac_addr_to_long : MacAddr → ℕ
unfolding mac_loop
mac_addr_to_long addr = mac_loop 0 (take eth_alen addr)

pub record Entry : Type 0 where
  pub port : ℤ
  pub life_time : ℤ

pub record EthernetSwitch : Type 0 where
  pub table : Map Entry

-- `InitSwitch`
pub init_switch : ℕ → EthernetSwitch → EthernetSwitch
init_switch num_ports sw = record { table = [] }

tick : Entry → Entry
tick e = record e { life_time = e.life_time -ℤ pos 1 }

-- The first loop of `Aging`: the table with each entry one step older, and `del`, the addresses
-- whose life has come to 0.
age_all : Map Entry → Map Entry × List ℕ
unfolding tick
age_all [] = ([], [])
age_all ((a, e) ∷ t) =
    let (t', del) = age_all t in
    ((a, tick e) ∷ t', if (tick e).life_time ==ℤ pos 0 then a ∷ del else del)

-- The second loop: `table.erase(table.find(a))`.
erase_all : List ℕ → Map Entry → Map Entry
erase_all [] t = t
erase_all (a ∷ del) t = erase_all del (erase a t)

pub aging : EthernetSwitch → EthernetSwitch
unfolding age_all erase_all
aging sw = let (t, del) = age_all sw.table in record { table = erase_all del t }

-- `table[src].lifeTime = …; table[src].Port = inPort`
learn : EthernetSwitch → ℕ → ℤ → EthernetSwitch
learn sw src in_port = record {
  table = insert src (record { port = in_port; life_time = ether_mac_aging_threshold }) sw.table;
}

-- The port for a data frame: 0 to flood, -1 to drop.
out_port : Option Entry → ℤ → ℤ
out_port none in_port = pos 0
out_port (some e) in_port = if e.port ==ℤ in_port then minus_one else e.port

pub process_frame : EthernetSwitch → ℤ → EtherHeader → EthernetSwitch × ℤ
unfolding learn out_port
process_frame sw in_port header =
    if header.ether_type == ether_control_type then (aging sw, minus_one) else (
      learn sw (mac_addr_to_long header.ether_src) in_port,
      out_port
          (lookup (mac_addr_to_long header.ether_dest)
            (learn sw (mac_addr_to_long header.ether_src) in_port).table)
          in_port,
    )
