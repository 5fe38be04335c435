-- ===== src/Types/Packet/Tests.antt =====
-- Instances of the properties of packets.
use lb.Types.Net.{Ipv4Addr, from_be_bytes, Bytes}
use lb.Prelude.{[], arith, none, refl, some, ℕ, ◌++◌, ◌∷◌, ◌≡◌}
use lb.Types.Packet.Parsed.{readers-Runs}
use lb.Types.Packet.Header.{from_ipv4_bytes-packet, address, flags_of}
use lb.Types.Packet.Buffer.{flow_buffer-injective}
use lb.Types.Packet.{
  from_ip_proto, Protocol, from_ipv4_bytes, Ipv4Addr, from_ip_bytes, from_be_bytes, Bytes,
  fragment_id, is_fragment, is_non_first_fragment, from_ipv6_bytes,
}
use lb.Prelude.Checked.{value, Runs}

-- A SYN from 10.0.0.9 to 188.184.100.10.
abbrev syn_header : Bytes
syn_header =
    0x45 ∷ 0 ∷ 0 ∷ 40 ∷ 0 ∷ 1 ∷ 0 ∷ 0 ∷ 64 ∷ 6 ∷ 0 ∷ 0 ∷ 10 ∷ 0 ∷ 0 ∷ 9 ∷ 188 ∷ 184 ∷ 100 ∷ 10 ∷ []

abbrev syn_rest : Bytes
syn_rest = 0 ∷ 0 ∷ 0 ∷ 0 ∷ 0 ∷ 0 ∷ 0 ∷ 0 ∷ 0x50 ∷ 2 ∷ 0 ∷ 0 ∷ 0 ∷ 0 ∷ 0 ∷ 0 ∷ []

tcp_number : from_ip_proto 6 ≡ some Protocol.tcp
unfolding from_ip_proto
tcp_number = refl

readers-Runs_example :
    Runs (from_ip_bytes (0x45 ∷ []))
    × Runs (from_ipv4_bytes (0x45 ∷ []))
    × Runs (fragment_id (0x45 ∷ []))
    × Runs (is_fragment (0x45 ∷ []))
    × Runs (is_non_first_fragment (0x45 ∷ []))
    × Runs (from_ipv6_bytes (0x45 ∷ []))
readers-Runs_example = readers-Runs (0x45 ∷ [])

from_ipv4_bytes-packet_example :
    from_ipv4_bytes (syn_header ++ (0x30 ∷ 0x39 ∷ 1 ∷ 187 ∷ syn_rest))
    ≡ value (
        some (record {
          src_ip = address syn_header 12;
          dst_ip = address syn_header 16;
          src_port = from_be_bytes 0x30 0x39;
          dst_port = from_be_bytes 1 187;
          protocol = Protocol.tcp;
          tcp_flags = flags_of Protocol.tcp syn_rest;
        }))
from_ipv4_bytes-packet_example =
    from_ipv4_bytes-packet syn_header syn_rest 5 0x30 0x39 1 187 refl (omega arith) (omega arith)
      Protocol.tcp refl tcp_number

abbrev src_port_of : ℕ → ℕ
src_port_of p = p

abbrev host : ℕ → Ipv4Addr
host d = record { a = 10; b = 0; c = 0; d = d }

flow_buffer-injective_example :
    (host 1 ≡ host 1)
    × (host 2 ≡ host 2)
    × (src_port_of 80 ≡ src_port_of 80)
    × (src_port_of 443 ≡ src_port_of 443)
    × (Protocol.udp ≡ Protocol.udp)
flow_buffer-injective_example =
    flow_buffer-injective (host 1) (host 2) (host 1) (host 2) 80 443 80 443 Protocol.udp
      Protocol.udp none none (omega arith) (omega arith) (omega arith) (omega arith) refl
