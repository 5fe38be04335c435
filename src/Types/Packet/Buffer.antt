-- ===== src/Types/Packet/Buffer.antt =====
-- The buffers that the flow and fragment hashes are taken of: `flow_hash` and `fragment_hash` of
-- crates/lb-types/src/packet.rs. An address fills 16 bytes, an IPv4 one the first four of them.
use lb.Prelude.{[], replicate, ℕ, ◌++◌, ◌<◌, ◌∷◌, ◌≡◌, Option, arith, refl, ap, get_or}
use lb.Types.Net.{Bytes, IpAddr, v4, v6, Ipv6Addr, to_be_bytes, octets4, Ipv4Addr}
use lb.Types.Packet.{Protocol, PacketMeta, FragmentId, protocol_number, Protocol}
use lb.Hashing.Permutation.{Hasher}

unfoldable pub octets6 : Ipv6Addr → Bytes
octets6 ip =
    to_be_bytes ip.s0
    ++ (to_be_bytes ip.s1
        ++ (to_be_bytes ip.s2
            ++ (to_be_bytes ip.s3
                ++ (to_be_bytes ip.s4
                    ++ (to_be_bytes ip.s5 ++ (to_be_bytes ip.s6 ++ to_be_bytes ip.s7))))))

unfoldable pub address_field : IpAddr → Bytes
unfolding octets6 octets4
address_field (v4 ip) = octets4 ip ++ replicate 12 0
address_field (v6 ip) = octets6 ip

unfoldable pub flow_buffer : PacketMeta → Bytes
unfolding address_field protocol_number
flow_buffer m =
    address_field m.src_ip
    ++ (address_field m.dst_ip
        ++ (to_be_bytes m.src_port
            ++ (to_be_bytes m.dst_port ++ (protocol_number m.protocol ∷ []))))

unfoldable pub flow_hash : Hasher → PacketMeta → ℕ
flow_hash hasher m = hasher.xxh3_64 (flow_buffer m)

unfoldable pub fragment_buffer : FragmentId → Bytes
unfolding address_field
fragment_buffer f = address_field f.src_ip ++ (address_field f.dst_ip ++ to_be_bytes f.ip_id)

unfoldable pub fragment_hash : Hasher → FragmentId → ℕ
fragment_hash hasher f = hasher.xxh3_64 (fragment_buffer f)

-- An IPv4 packet's metadata.
abbrev pub v4_flow : Ipv4Addr → Ipv4Addr → ℕ → ℕ → Protocol → Option ℕ → PacketMeta
v4_flow src dst sp dp protocol flags = record {
  src_ip = v4 src;
  dst_ip = v4 dst;
  src_port = sp;
  dst_port = dp;
  protocol = protocol;
  tcp_flags = flags;
}

protocol_number-injective : (p q : Protocol) → protocol_number p ≡ protocol_number q → p ≡ q
unfolding protocol_number
protocol_number-injective Protocol.tcp Protocol.tcp e = refl
protocol_number-injective Protocol.tcp Protocol.udp e = absurd (omega arith)
protocol_number-injective Protocol.udp Protocol.tcp e = absurd (omega arith)
protocol_number-injective Protocol.udp Protocol.udp e = refl

-- Two IPv4 flows whose ports fit in 16 bits, and whose buffers are the same, agree in all five
-- fields of the 5-tuple.
pub flow_buffer-injective :
    (s d s' d' : Ipv4Addr) (sp dp sp' dp' : ℕ) (p p' : Protocol) (flags flags' : Option ℕ)
    → sp < 65536
    → dp < 65536
    → sp' < 65536
    → dp' < 65536
    → flow_buffer (v4_flow s d sp dp p flags) ≡ flow_buffer (v4_flow s' d' sp' dp' p' flags')
    → (s ≡ s') × (d ≡ d') × (sp ≡ sp') × (dp ≡ dp') × (p ≡ p')
unfolding flow_buffer
flow_buffer-injective s d s' d' sp dp sp' dp' p p' flags flags' a b c e h = (
  ground arith,
  ground arith,
  ground arith,
  ground arith,
  protocol_number-injective p p' (ap (λ (l : Bytes). get_or l 36 0) h),
)
