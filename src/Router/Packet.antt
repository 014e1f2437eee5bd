-- ===== src/Router/Packet.antt =====
-- router.h and router.cpp: packets as they lie in memory, and what `router` does to one.
pub mod Layout
pub mod Broadcast
pub mod Forward
use networking_labs.Prelude.{
  ℕ, ◌+◌, ◌-◌, ◌*◌, ◌%◌, ◌^◌, List, [], ◌∷◌, ◌++◌, Option, some, ◌>>=◌, Bool, ◌==◌, if◌then◌else◌,
  get_or, take, drop, length,
}
use networking_labs.Prelude.Bytes.{le16, le32}
use networking_labs.Prelude.Int.{ℤ, pos, ◌==ℤ◌}
use networking_labs.Router.Address.{IpAddr}
use networking_labs.Router.{
  Shared, Router, Message, dv_info, data_packet, trigger_dv, release_item, port_value, add_host,
  Outcome, sent, fault, router,
}
use networking_labs.Router.Text.{get_dv_info, get_control, dv_text}

abbrev pub header_size : ℕ
header_size = 12

abbrev pub type_dv : ℕ
type_dv = 0

abbrev pub type_data : ℕ
type_data = 1

abbrev pub type_control : ℕ
type_control = 2

-- `Header`; the addresses are as they lie in the packet.
pub record PacketHeader : Type 0 where
  pub src : ℕ
  pub dst : ℕ
  pub type : ℕ
  pub length : ℕ

-- The header in memory: a byte of padding, `pad`, comes after the type.
unfoldable pub header_bytes : ℕ → PacketHeader → List ℕ
header_bytes pad hd = le32 hd.src ++ (le32 hd.dst ++ (hd.type ∷ pad ∷ le16 hd.length))

-- `&inPack->hd`
unfoldable pub read_header : List ℕ → PacketHeader
read_header packet =
    let byte = λ (i : ℕ). get_or packet i 0 in
    record {
      src = byte 0 + byte 1 * 256 + byte 2 * 65536 + byte 3 * 16777216;
      dst = byte 4 + byte 5 * 256 + byte 6 * 65536 + byte 7 * 16777216;
      type = byte 8;
      length = byte 10 + byte 11 * 256;
    }

-- `string cmd(inPack->payload, inPacHeader->length)`: the length counts the header too, so the text
-- goes on behind the packet.
unfoldable pub cmd : List ℕ → List ℕ
cmd packet = take (read_header packet).length (drop header_size packet)

-- What a packet says to a network of `tot_router_num` routers.
unfoldable pub read_message : ℕ → List ℕ → Option Message
read_message tot_router_num packet =
    let hd = read_header packet in
    if hd.type == type_dv
    then get_dv_info tot_router_num (cmd packet)
    else if hd.type == type_data
    then some (data_packet hd.src hd.dst)
    else get_control (cmd packet)

-- `Packet(Header(0, 0, TYPE_DV, headerSize + dvString.length()), dvString.c_str())`
unfoldable pub dv_header : List ℕ → PacketHeader
dv_header text = record {
  src = 0;
  dst = 0;
  type = type_dv;
  length = (header_size + length text) % 2 ^ 16;
}

unfoldable pub dv_packet : ℕ → ℕ → Router → List ℕ
dv_packet pad tot_router_num r =
    let text = dv_text tot_router_num r in
    header_bytes pad (dv_header text) ++ take ((dv_header text).length - header_size) text

-- `memcpy(packet, (char*)retPack, sizeof(char) * retPack->hd.length)`
unfoldable pub copy_dv : ℕ → ℕ → Router → List ℕ → List ℕ
copy_dv pad tot_router_num r packet =
    let len = (dv_header (dv_text tot_router_num r)).length in
    take len (dv_packet pad tot_router_num r) ++ drop len packet

-- `inPacHeader->src = …` and `inPacHeader->dst = …`
unfoldable pub put_src : IpAddr → List ℕ → List ℕ
put_src address packet = le32 address ++ drop 4 packet

unfoldable pub put_dst : IpAddr → List ℕ → List ℕ
put_dst address packet = take 4 packet ++ (le32 address ++ drop 8 packet)

-- The packet when `router` returns: the addresses of a data packet may be others, a broadcast
-- carries the own row, and any other packet is as it was.
unfoldable pub leave : ℕ → ℕ → Router → Message → ℤ → List ℕ → List ℕ
leave pad tot_router_num r (data_packet src dst) port packet = put_dst dst (put_src src packet)
leave pad tot_router_num r (dv_info id version row) port packet =
    if port ==ℤ pos 0 then copy_dv pad tot_router_num r packet else packet
leave pad tot_router_num r trigger_dv port packet = packet
leave pad tot_router_num r (release_item ip) port packet = packet
leave pad tot_router_num r (port_value id value) port packet = packet
leave pad tot_router_num r (add_host id ip) port packet = packet

pub data PacketOutcome : Type 0 where
  left : Shared → Router → List ℕ → ℤ → PacketOutcome
  packet_fault : PacketOutcome

abbrev pub left_by : ℕ → ℕ → List ℕ → Outcome → PacketOutcome
left_by pad tot_router_num packet (sent g r m port) =
    left g r (leave pad tot_router_num r m port packet) port
left_by pad tot_router_num packet fault = packet_fault

-- `router` on a packet, where its text can be read.
unfoldable pub router_packet : ℕ → Shared → Router → ℕ → List ℕ → Option PacketOutcome
router_packet pad g r in_port packet = read_message g.tot_router_num packet >>= λ m.
    some (left_by pad g.tot_router_num packet (router g r in_port m))
