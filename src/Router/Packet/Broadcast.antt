-- ===== src/Router/Packet/Broadcast.antt =====
-- router.cpp: a row that one router broadcasts is read by another from the bytes of the packet.
use mathlib.Core.Option.{some-injective}
use networking_labs.Prelude.{
  ℕ, ◌≤◌, ◌<◌, ◌≡◌, ◌≢◌, refl, sym, ap, ◌∙◌, List, [], some, Bool, true, false, ◌==◌, if◌then◌else◌,
  arith,
}
use networking_labs.Prelude.Int.{ℤ, pos, minus_one}
use networking_labs.Router.{
  Shared, Router, Message, dv_info, data_packet, trigger_dv, release_item, port_value, add_host,
  Outcome, sent, fault, dv_message, answer_dv, on_dv, on_port_value, router,
}
use networking_labs.Router.Distance.{Fun}
use networking_labs.Router.Text.{get_dv_info}
use networking_labs.Router.Text.RoundTrip.{IsShort, get_dv_info-dv_text}
use networking_labs.Router.Packet.Layout.{cmd-copy_dv, read_message-copy_dv}
use networking_labs.Router.Packet.{
  read_message, copy_dv, PacketOutcome, packet_fault, left_by, leave, left, router_packet,
}

-- No data packet.
abbrev pub IsControl : Message → Type 0
IsControl (data_packet src dst) = ⊥
IsControl (dv_info id version row) = Unit
IsControl trigger_dv = Unit
IsControl (release_item ip) = Unit
IsControl (port_value id value) = Unit
IsControl (add_host id ip) = Unit

-- What is sent to all neighbours is the own row.
data OwnRow : Outcome → Type 0 where
  to_one :
      (g : Shared) (r : Router) (m : Message) (port : ℤ) → port ≢ pos 0 → OwnRow (sent g r m port)
  to_all : (g : Shared) (r : Router) → OwnRow (sent g r (dv_message r) (pos 0))
  stopped : OwnRow fault

if-OwnRow : (b : Bool) (x y : Outcome) → OwnRow x → OwnRow y → OwnRow (if b then x else y)
if-OwnRow true x y hx hy = hx
if-OwnRow false x y hx hy = hy

not_all : minus_one ≢ pos 0
not_all e = absurd (ground arith)

no_broadcast : (g : Shared) (r : Router) (m : Message) → OwnRow (sent g r m minus_one)
no_broadcast g r m = to_one g r m minus_one not_all

answer_dv-OwnRow :
    (quiet : Bool) (g : Shared) (r : Router) (m : Message) → OwnRow (answer_dv quiet g r m)
unfolding answer_dv
answer_dv-OwnRow true g r m = no_broadcast g r m
answer_dv-OwnRow false g r m = to_all g r

router-OwnRow :
    (g : Shared) (r : Router) (in_port : ℕ) (m : Message)
    → IsControl m
    → OwnRow (router g r in_port m)
unfolding router on_dv on_port_value
router-OwnRow g r in_port (data_packet src dst) h = elim h [ ]
router-OwnRow g r in_port (dv_info id version row) h =
    if-OwnRow (id == r.router_id) _ _ (no_broadcast g r (dv_info id version row))
      (answer_dv-OwnRow _ _ _ _)
router-OwnRow g r in_port trigger_dv h = to_all g r
router-OwnRow g r in_port (release_item ip) h = no_broadcast _ _ _
router-OwnRow g r in_port (port_value port value) h =
    if-OwnRow _ _ _ (no_broadcast _ _ _) (no_broadcast _ _ _)
router-OwnRow g r in_port (add_host port ip) h = no_broadcast _ _ _

leave-own :
    (pad n : ℕ) (r : Router) (packet : List ℕ)
    → leave pad n r (dv_message r) (pos 0) packet ≡ copy_dv pad n r packet
unfolding leave dv_message
leave-own pad n r packet = refl

-- The parts of what a packet comes to.
abbrev port_of : PacketOutcome → ℤ
port_of (left g r packet port) = port
port_of packet_fault = minus_one

abbrev router_of : Router → PacketOutcome → Router
router_of r (left g r' packet port) = r'
router_of r packet_fault = r

abbrev bytes_of : PacketOutcome → List ℕ
bytes_of (left g r packet port) = packet
bytes_of packet_fault = []

-- When router, on a packet that is no data packet, returns 0, which is a broadcast, any router of
-- the same network reads out of the packet it leaves the sender's number, its version and, from 1
-- to the number of routers, its own row of distances, whatever the packet held before; for fewer
-- than 100 routers, and a number, a version and distances that an int holds.
pub router_packet-broadcast :
    (pad : ℕ) (g g' : Shared) (r r' : Router) (in_port : ℕ) (m : Message) (packet packet' : List ℕ)
    → read_message g.tot_router_num packet ≡ some m
    → IsControl m
    → router_packet pad g r in_port packet ≡ some (left g' r' packet' (pos 0))
    → g.tot_router_num < 100
    → IsShort r'.router_id
    → IsShort r'.dv.version
    → ((i : ℕ) → IsShort (r'.dv.d r'.router_id i))
    → (row : Fun ℕ) × (read_message g.tot_router_num packet'
        ≡ some (dv_info r'.router_id r'.dv.version row))
      × ((i : ℕ) → 1 ≤ i → i ≤ g.tot_router_num → row i ≡ r'.dv.d r'.router_id i)
unfolding router_packet
router_packet-broadcast pad g g' r r' in_port m packet packet' said control came few id version
      short =
    let n = g.tot_router_num in
    by_cases (router g r in_port m) (router-OwnRow g r in_port m control)
      (some-injective _ _ (rw said at came))
  where
    heard :
        (row : Fun ℕ) × (read_message g.tot_router_num (copy_dv pad g.tot_router_num r' packet)
          ≡ some (dv_info r'.router_id r'.dv.version row))
        × ((i : ℕ) → 1 ≤ i → i ≤ g.tot_router_num → row i ≡ r'.dv.d r'.router_id i)
    heard =
        let n = g.tot_router_num in
        let (after, text) = cmd-copy_dv pad n r' packet few in
        let (row, read, same) = get_dv_info-dv_text n r' after id version short in
        (row, read_message-copy_dv pad n r' packet few ∙ ap (get_dv_info n) text ∙ read, same)

    by_cases :
        (o : Outcome)
        → OwnRow o
        → left_by pad g.tot_router_num packet o ≡ left g' r' packet' (pos 0)
        → (row : Fun ℕ) × (read_message g.tot_router_num packet'
            ≡ some (dv_info r'.router_id r'.dv.version row))
          × ((i : ℕ) → 1 ≤ i → i ≤ g.tot_router_num → row i ≡ r'.dv.d r'.router_id i)
    by_cases _ (to_one g₁ r₁ m₁ port ne) e = absurd (ne (ap port_of e))
    by_cases _ (to_all g₁ r₁) e =
        let n = g.tot_router_num in
        let (row, read, same) = heard in
        let written : copy_dv pad n r' packet ≡ packet' =
          ap (λ x. copy_dv pad n x packet) (sym (ap (router_of r) e))
          ∙ sym (leave-own pad n r₁ packet)
          ∙ ap bytes_of e in
        (row, ap (read_message n) (sym written) ∙ read, same)
    by_cases _ stopped e = absurd (not_all (ap port_of e))
