-- ===== src/Router/Tests.antt =====
-- Runs of the router, and its theorems at concrete tables.
use Prim.Native.Nat.{min, bit_xor}
use networking_labs.Prelude.{
  ℕ, ◌+◌, ◌-◌, ◌/◌, ◌^◌, ◌≤◌, ◌<◌, ◌≡◌, ◌↔◌, refl, List, [], ◌∷◌, ◌++◌, none, some, true, false,
  All, ◌&&◌, leb, ◌==◌, if◌then◌else◌, arith,
}
use networking_labs.Prelude.Map.{lookup, insert}
use networking_labs.Router.Address.{IpAddr, Matcher, in_range, matches, first_match}
use networking_labs.Router.Address.Text.{cidr_to_ip, digits_value, is_digit}
use networking_labs.Router.Address.Cidr.{dotted, address}
use networking_labs.Router.Address.Range.{cidr_to_ip-in_range}
use networking_labs.Router.Address.Longest.{IsSorted, IsLongest, first_match-IsLongest}
use networking_labs.Router.Nat.{NatTable, init_addresses, start_nat, translate_out, translate_in}
use networking_labs.Router.Nat.Invariant.{IsNat}
use networking_labs.Router.Nat.Translation.{Translated, translate_out-Translated, start_nat-IsNat}
use networking_labs.Router.Distance.{Dv, Fun, no_path, init_dv, own, update_dv}
use networking_labs.Router.Distance.Relax.{update_dv_exact}
use networking_labs.Prelude.Bytes.{is_space, skip_spaces}
use networking_labs.Router.Text.{get_control, get_int, get_command, digits_first, take_digits}
use networking_labs.Router.Packet.{
  type_data, type_control, header_bytes, read_header, cmd, read_message, copy_dv, leave, left,
  router_packet,
}
use networking_labs.Router.Packet.Broadcast.{router_packet-broadcast}
use networking_labs.Router.Handler.{Leaves, HasNat, router-IsNat}
use networking_labs.Router.{
  Shared, Router, dv_info, trigger_dv, register, data_packet, dv_message, init_with, router,
}
use networking_labs.Prelude.Int.{pos}

abbrev pool : NatTable
pool = start_nat (init_addresses 100 101)

pool-IsNat : IsNat pool
pool-IsNat = start_nat-IsNat 100 101 (omega arith)

translate_out-Translated_example : Translated pool 7 (translate_out pool 7)
translate_out-Translated_example = translate_out-Translated pool 7 pool-IsNat

-- The first host gets the highest address, and the answer comes back to it.
first_host : ((translate_out pool 7).1 ≡ 101) × (translate_in (translate_out pool 7).0 101 ≡ some 7)
unfolding translate_out start_nat init_addresses translate_in lookup insert
first_host = (refl, refl)

abbrev no_routers : Shared
no_routers = record {
  host2_router = [];
  external_ip_table = [];
  tot_router_num = 0;
  lst_change_version = 0;
}

abbrev started : Shared × Router
started = init_with (λ l. l) no_routers 2 (some (0x14000000, 0x14ffffff)) (some (100, 101))

router-IsNat_example :
    Leaves HasNat (router started.0 started.1 3 (data_packet 0x0100000a 0x01000014))
unfolding init_with
router-IsNat_example =
    router-IsNat started.0 started.1 3 (data_packet 0x0100000a 0x01000014) pool-IsNat

-- Router 1 with routers 2 and 3: a direct link of 5 to each, and router 2 is 1 from router 3.
abbrev table : Dv
table = record (init_dv 1) {
  c = λ i. if i == 1 then 0 else 5;
  d = λ k i. if k == 2 && i == 3 then 1 else no_path;
}

update_dv_exact_example :
    ((update_dv 3 2 table).0.overflow ≡ false)
    × ((j : ℕ)
        → own (update_dv 3 2 table).0 j ≡ (
            if leb 1 j && leb j 3
            then min (table.c 2 + table.d 2 j) (min (table.c j) (own table j))
            else own table j))
unfolding init_dv
update_dv_exact_example = update_dv_exact 3 2 table (ground arith) (λ j lo hi. ground arith)

-- 20.0.7.1/8
cidr_to_ip-in_range_example :
    (lo : IpAddr) × (hi : IpAddr) × (cidr_to_ip
        (dotted (50 ∷ 48 ∷ []) (48 ∷ []) (55 ∷ []) (49 ∷ []) ++ 47 ∷ 56 ∷ [])
      ≡ some (lo, hi))
    × ((ip : IpAddr)
        → (in_range lo hi ip ≡ true)
          ↔ (ip / 2 ^ 24 ≡ address (50 ∷ 48 ∷ []) (48 ∷ []) (55 ∷ []) (49 ∷ []) / 2 ^ 24))
    × ((id ip : ℕ)
        → ip < 2 ^ 32
        → matches (record { id = id; subnet_ip = lo; musk = 2 ^ 32 - 1 - bit_xor hi lo }) ip
          ≡ in_range lo hi ip)
unfolding digits_value is_digit
cidr_to_ip-in_range_example =
    cidr_to_ip-in_range (50 ∷ 48 ∷ []) (48 ∷ []) (55 ∷ []) (49 ∷ []) (56 ∷ [])
      ((refl, (refl, tt)), (omega arith)) ((refl, tt), (omega arith)) ((refl, tt), (omega arith))
      ((refl, tt), (omega arith)) (refl, tt) (omega arith) (omega arith)

-- Two networks, one within the other.
abbrev networks : List Matcher
networks =
    record { id = 2; subnet_ip = 0x14010000; musk = 0xffff0000 }
    ∷ record { id = 1; subnet_ip = 0x14000000; musk = 0xff000000 }
    ∷ []

first_match-IsLongest_example :
    (first_match networks 0x14010203 ≡ none → All (λ m. matches m 0x14010203 ≡ false) networks)
    × ((id : ℕ)
        → first_match networks 0x14010203 ≡ some id
        → (m : Matcher) × (m.id ≡ id) × IsLongest networks 0x14010203 m)
unfolding IsSorted
first_match-IsLongest_example =
    first_match-IsLongest networks 0x14010203 (((omega arith), tt), (tt, tt))

-- The second of two routers.
abbrev both : Shared
both = record {
  host2_router = [];
  external_ip_table = [];
  tot_router_num = 2;
  lst_change_version = 0;
}

abbrev second : Router
second = (init_with (λ l. l) (record both { tot_router_num = 1 }) 2 none none).1

-- It is told to broadcast its row by a packet with the text "0".
abbrev trigger : List ℕ
trigger =
    header_bytes 0 (record { src = 0; dst = 0; type = type_control; length = 13 }) ++ b'0' ∷ []

trigger_read : read_message 2 trigger ≡ some trigger_dv
unfolding header_bytes read_message read_header cmd get_control get_int get_command skip_spaces
    digits_first take_digits is_digit is_space
trigger_read = refl

trigger_left :
    router_packet 0 both second 1 trigger
    ≡ some (left both second (copy_dv 0 2 second trigger) (pos 0))
unfolding router_packet router leave dv_message
trigger_left = rw trigger_read refl

router_packet-broadcast_example :
    (row : Fun ℕ) × (read_message 2 (copy_dv 0 2 second trigger)
      ≡ some (dv_info second.router_id second.dv.version row))
    × ((i : ℕ) → 1 ≤ i → i ≤ 2 → row i ≡ second.dv.d second.router_id i)
unfolding init_with register init_dv
router_packet-broadcast_example =
    router_packet-broadcast 0 both both second second 1 trigger_dv trigger
      (copy_dv 0 2 second trigger) trigger_read tt trigger_left (omega arith) (omega arith)
      (omega arith) (λ i. ground arith)

-- A packet from one host to another of the same network.
abbrev to_host : List ℕ
to_host =
    header_bytes 0 (record { src = 0x0100000a; dst = 0x0200000a; type = type_data; length = 13 })
    ++ 7 ∷ []
