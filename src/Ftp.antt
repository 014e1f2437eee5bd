-- ===== src/Ftp.antt =====
-- lab1-myftp-Heccc257/src: datagrams, and how they go over a connection. The sockets are not under
-- src/: how many bytes each call of `read` gives, if there are so many, is an argument.
pub mod Kinds
pub mod Text
pub mod Files
pub mod Server
pub mod Client
pub mod Session
pub mod Stream
mod Tests
use Prim.Native.Nat.{min}
use networking_labs.Prelude.{
  ℕ, ◌+◌, ◌-◌, ◌*◌, ◌/◌, ◌%◌, ◌^◌, List, [], ◌∷◌, ◌++◌, Option, none, some, ◌>>=◌, ◌==◌,
  if◌then◌else◌, take, drop, length, get_or,
}

-- `endianRev`
unfoldable pub endian_rev : ℕ → ℕ
endian_rev a =
    a % 256 * 16777216 + a / 256 % 256 * 65536 + a / 65536 % 256 * 256 + a / 16777216 % 256

abbrev pub header_size : ℕ
header_size = 12

-- `Header`; the magic number is the same in all.
pub record Header : Type 0 where
  pub m_type : ℕ
  pub m_status : ℕ
  pub m_length : ℕ

-- `datagram`; no payload is `nullptr`.
pub record Datagram : Type 0 where
  pub hd : Header
  pub payload : List ℕ

abbrev pub magic : List ℕ
magic = 0xe3 ∷ 109 ∷ 121 ∷ 102 ∷ 116 ∷ 112 ∷ []

-- The header as it lies in memory.
abbrev pub header_bytes : Header → List ℕ
header_bytes h =
    magic
    ++ (h.m_type
        ∷ h.m_status
        ∷ h.m_length % 256
        ∷ h.m_length / 256 % 256
        ∷ h.m_length / 65536 % 256
        ∷ h.m_length / 16777216 % 256
        ∷ [])

abbrev pub new_header : ℕ → ℕ → ℕ → Header
new_header type status length = record {
  m_type = type;
  m_status = status;
  m_length = endian_rev (length % 2 ^ 32);
}

-- The constructors: with a text and its final 0, with a number of bytes, and without a payload.
unfoldable pub text_datagram : ℕ → ℕ → List ℕ → Datagram
text_datagram type status pl = record {
  hd = new_header type status (header_size + length pl + 1);
  payload = pl ++ 0 ∷ [];
}

-- The constructor without a status.
abbrev pub plain_datagram : ℕ → List ℕ → Datagram
plain_datagram type pl = text_datagram type 0 pl

unfoldable pub bytes_datagram : ℕ → ℕ → ℕ → List ℕ → Datagram
bytes_datagram type status len pl = record {
  hd = new_header type status (header_size + len);
  payload = take len pl;
}

unfoldable pub empty_datagram : ℕ → ℕ → Datagram
empty_datagram type status = record { hd = new_header type status header_size; payload = [] }

unfoldable pub dg_length : Header → ℕ
dg_length h = endian_rev h.m_length

unfoldable pub payload_length : Header → ℕ
payload_length h = (endian_rev h.m_length + (2 ^ 32 - header_size)) % 2 ^ 32

-- `dgram2bytes` into a buffer.
pub dgram2bytes : List ℕ → Datagram → List ℕ
dgram2bytes buff dg =
    header_bytes dg.hd
    ++ (take (payload_length dg.hd) dg.payload ++ drop (header_size + payload_length dg.hd) buff)

-- What `writeDgram` writes.
pub write_dgram : List ℕ → Datagram → List ℕ
unfolding dgram2bytes
write_dgram bbuff dg = take (dg_length dg.hd) (dgram2bytes bbuff dg)

-- `readBuf`: the bytes, what is left of the stream, and the calls that have not been made.
pub read_buf : List ℕ → ℕ → List ℕ → Option (List ℕ × List ℕ × List ℕ)
read_buf [] len stream = if len == 0 then some ([], stream, []) else none
read_buf (k ∷ ks) len stream =
    let b = min k (min len (length stream)) in
    let rest = read_buf ks (len - b) (drop b stream) in
    if len == 0
    then some ([], stream, k ∷ ks)
    else rest >>= λ (buf, stream', ks'). some (take b stream ++ buf, stream', ks')

-- `bytes2dgram`: the header; the magic number is not looked at.
pub bytes2dgram : List ℕ → Header
bytes2dgram buff =
    let byte = λ (i : ℕ). get_or buff i 0 in
    record {
      m_type = byte 6;
      m_status = byte 7;
      m_length = byte 8 + byte 9 * 256 + byte 10 * 65536 + byte 11 * 16777216;
    }

-- `readDgram`
pub read_dgram : List ℕ → List ℕ → Option (Datagram × List ℕ × List ℕ)
unfolding read_buf bytes2dgram
read_dgram ks stream = read_buf ks header_size stream >>= λ (buf, stream', ks').
    read_buf ks' (payload_length (bytes2dgram buf)) stream' >>= λ (payload, stream'', ks'').
    some (record { hd = bytes2dgram buf; payload = payload }, stream'', ks'')
