-- ===== src/Types/Packet.antt =====
-- crates/lb-types/src/packet.rs and the protocol of vip.rs: what the forwarder reads off a packet.
use lb.Prelude.{
  Bool, Option, [], bit_and, false, if◌then◌else◌, leb, length, ltb, none, not, some, ℕ, ◌*◌, ◌+◌,
  ◌/◌, ◌==◌, ◌||◌, ◌∷◌,
}
use lb.Prelude.Checked.{Checked, value, panic, ◌>>=◌, index}
use lb.Types.Net.{Bytes, IpAddr, v4, v6, Ipv4Addr, Ipv6Addr, from_be_bytes, to_be_bytes}
pub mod Buffer
pub mod Parsed
pub mod Header
mod Tests

-- `Protocol` of vip.rs.
pub data Protocol : Type 0 where
  tcp udp : Protocol

unfoldable pub Protocol-discrete : Discrete Protocol
Protocol-discrete = hlevel

unfoldable pub from_ip_proto : ℕ → Option Protocol
from_ip_proto p = if p == 6 then some tcp else if p == 17 then some udp else none

-- `protocol as u8`.
unfoldable pub protocol_number : Protocol → ℕ
protocol_number tcp = 6
protocol_number udp = 17

pub data FlowProto : Type 0 where
  tcp_flow udp_flow other_flow : FlowProto

unfoldable pub FlowProto-discrete : Discrete FlowProto
FlowProto-discrete = hlevel

-- `FlowProto::from`.
unfoldable pub flow_proto : Protocol → FlowProto
flow_proto tcp = tcp_flow
flow_proto udp = udp_flow

pub data TcpFlowState : Type 0 where
  not_tcp handshake established closing : TcpFlowState

unfoldable pub TcpFlowState-discrete : Discrete TcpFlowState
TcpFlowState-discrete = hlevel

-- `TcpFlags(u8)` and its tests.
unfoldable pub fin : ℕ → Bool
fin flags = not (bit_and flags 0x01 == 0)

unfoldable pub syn : ℕ → Bool
syn flags = not (bit_and flags 0x02 == 0)

unfoldable pub rst : ℕ → Bool
rst flags = not (bit_and flags 0x04 == 0)

unfoldable pub ack : ℕ → Bool
ack flags = not (bit_and flags 0x10 == 0)

pub record PacketMeta : Type 0 where
  pub src_ip : IpAddr
  pub dst_ip : IpAddr
  pub src_port : ℕ
  pub dst_port : ℕ
  pub protocol : Protocol
  pub tcp_flags : Option ℕ

-- `IpAddr::V4(Ipv4Addr::new(data[i], …))` and `u16::from_be_bytes([data[i], data[i + 1]])`.
unfoldable pub ipv4_at : Bytes → ℕ → Checked IpAddr
ipv4_at data' i = do
  a ← index data' i
  b ← index data' (i + 1)
  c ← index data' (i + 2)
  d ← index data' (i + 3)
  value (v4 (record { a = a; b = b; c = c; d = d }))

unfoldable pub u16_at : Bytes → ℕ → Checked ℕ
u16_at data' i = do hi ← index data' i; lo ← index data' (i + 1); value (from_be_bytes hi lo)

unfoldable pub ipv6_at : Bytes → ℕ → Checked IpAddr
unfolding u16_at
ipv6_at data' i = do
  s0 ← u16_at data' i
  s1 ← u16_at data' (i + 2)
  s2 ← u16_at data' (i + 4)
  s3 ← u16_at data' (i + 6)
  s4 ← u16_at data' (i + 8)
  s5 ← u16_at data' (i + 10)
  s6 ← u16_at data' (i + 12)
  s7 ← u16_at data' (i + 14)
  value (v6 (record { s0 = s0; s1 = s1; s2 = s2; s3 = s3; s4 = s4; s5 = s5; s6 = s6; s7 = s7 }))

-- The flags are read only from a TCP header that holds them.
unfoldable pub flags_at : Protocol → Bytes → ℕ → Checked (Option ℕ)
flags_at udp data' l4 = value none
flags_at tcp data' l4 =
    if leb (l4 + 14) (length data')
    then (do flags ← index data' (l4 + 13); value (some flags))
    else value none

-- The tail of `from_ipv4_bytes`, from the protocol on.
unfoldable pub ipv4_meta : Option Protocol → Bytes → ℕ → Checked (Option PacketMeta)
ipv4_meta none data' ihl = value none
ipv4_meta (some protocol) data' ihl = do
  src_ip ← ipv4_at data' 12
  dst_ip ← ipv4_at data' 16
  src_port ← u16_at data' ihl
  dst_port ← u16_at data' (ihl + 2)
  tcp_flags ← flags_at protocol data' ihl
  value (
      some (record {
        src_ip = src_ip;
        dst_ip = dst_ip;
        src_port = src_port;
        dst_port = dst_port;
        protocol = protocol;
        tcp_flags = tcp_flags;
      }))

unfoldable pub from_ipv4_bytes : Bytes → Checked (Option PacketMeta)
unfolding ipv4_meta ipv4_at u16_at flags_at from_ip_proto
from_ipv4_bytes data' = if ltb (length data') 24 then value none else do
  first ← index data' 0
  let ihl = bit_and first 0x0F * 4
  if not (first / 16 == 4) || ltb (length data') (ihl + 4)
      then value none
      else (do protocol_byte ← index data' 9; ipv4_meta (from_ip_proto protocol_byte) data' ihl)

-- The tail of `from_ipv6_bytes`.
unfoldable pub ipv6_meta : Option Protocol → Bytes → Checked (Option PacketMeta)
ipv6_meta none data' = value none
ipv6_meta (some protocol) data' = do
  src_ip ← ipv6_at data' 8
  dst_ip ← ipv6_at data' 24
  src_port ← u16_at data' 40
  dst_port ← u16_at data' 42
  tcp_flags ← flags_at protocol data' 40
  value (
      some (record {
        src_ip = src_ip;
        dst_ip = dst_ip;
        src_port = src_port;
        dst_port = dst_port;
        protocol = protocol;
        tcp_flags = tcp_flags;
      }))

unfoldable pub from_ipv6_bytes : Bytes → Checked (Option PacketMeta)
unfolding ipv6_meta ipv6_at u16_at flags_at from_ip_proto
from_ipv6_bytes data' = if ltb (length data') 44 then value none else do
  first ← index data' 0
  if not (first / 16 == 6)
      then value none
      else (do next_header ← index data' 6; ipv6_meta (from_ip_proto next_header) data')

unfoldable pub from_ip_bytes : Bytes → Checked (Option PacketMeta)
unfolding from_ipv4_bytes from_ipv6_bytes
from_ip_bytes [] = value none
from_ip_bytes (first ∷ rest) =
    if first / 16 == 4
    then from_ipv4_bytes (first ∷ rest)
    else if first / 16 == 6
    then from_ipv6_bytes (first ∷ rest)
    else value none

pub record FragmentId : Type 0 where
  pub src_ip : IpAddr
  pub dst_ip : IpAddr
  pub ip_id : ℕ

-- `FragmentId::from_ipv4_bytes`.
unfoldable pub fragment_id : Bytes → Checked (Option FragmentId)
unfolding ipv4_at u16_at
fragment_id data' = if ltb (length data') 20 then value none else do
  first ← index data' 0
  if not (first / 16 == 4) then value none else (do
    ip_id ← u16_at data' 4
    src_ip ← ipv4_at data' 12
    dst_ip ← ipv4_at data' 16
    value (some (record { src_ip = src_ip; dst_ip = dst_ip; ip_id = ip_id })))

-- `is_fragment` and `is_non_first_fragment`: the flag MF, and the 13 bits of the offset.
unfoldable pub is_fragment : Bytes → Checked Bool
unfolding u16_at
is_fragment data' = if ltb (length data') 20 then value false else do
  word ← u16_at data' 6
  value (not (bit_and word 0x2000 == 0) || not (bit_and word 0x1FFF == 0))

unfoldable pub is_non_first_fragment : Bytes → Checked Bool
unfolding u16_at
is_non_first_fragment data' =
    if ltb (length data') 20
    then value false
    else do word ← u16_at data' 6; value (not (bit_and word 0x1FFF == 0))
