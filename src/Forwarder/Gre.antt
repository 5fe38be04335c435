-- ===== src/Forwarder/Gre.antt =====
-- crates/lb-forwarder/src/gre.rs: GRE encapsulation behind an outer IPv4 header.
use lb.Prelude.{
  Bool, Option, [], false, if◌then◌else◌, length, ltb, none, some, take, true, ℕ, ◌%◌, ◌++◌, ◌+◌,
  ◌/◌, ◌==◌, ◌^◌, ◌∷◌,
}
use lb.Types.Net.{Bytes, Ipv4Addr, octets4, to_be_bytes}
use lb.Prelude.Checked.{Checked, value, panic, ◌>>=◌, index}
use lb.Forwarder.PacketBuf.{PacketBuf, overwrite}
use lb.Forwarder.Checksum.{ip_checksum}
pub mod Laws
pub mod Panics
pub mod Mtu
mod Tests

abbrev pub gre_header_size : ℕ
gre_header_size = 4

abbrev pub outer_ip_header_size : ℕ
outer_ip_header_size = 20

abbrev pub encap_overhead : ℕ
encap_overhead = gre_header_size + outer_ip_header_size

abbrev pub gre_proto_ipv4 : ℕ
gre_proto_ipv4 = 0x0800

abbrev pub gre_proto_ipv6 : ℕ
gre_proto_ipv6 = 0x86DD

-- The version of the inner packet, from its first byte.
unfoldable pub inner_proto : ℕ → Bytes → Checked ℕ
inner_proto inner_len data' =
    if ltb 0 inner_len
    then (do
      first ← index data' 0
      value (if first / 16 == 6 then gre_proto_ipv6 else gre_proto_ipv4))
    else value gre_proto_ipv4

-- The outer header with its checksum left 0.
unfoldable pub outer_header : ℕ → Ipv4Addr → Ipv4Addr → Bytes
unfolding octets4
outer_header total_len src_ip dst_ip =
    (0x45 ∷ 0x00 ∷ [])
    ++ (to_be_bytes total_len
        ++ ((0 ∷ 0 ∷ 0x40 ∷ 0x00 ∷ 64 ∷ 47 ∷ 0 ∷ 0 ∷ []) ++ (octets4 src_ip ++ octets4 dst_ip)))

-- The writes into the buffer, once the packet is known to fit.
unfoldable pub encapsulate_fitting : Bytes → ℕ → Ipv4Addr → Ipv4Addr → Checked Bytes
encapsulate_fitting data' inner_len src_ip dst_ip = do
  proto ← inner_proto inner_len data'
  let shifted = overwrite data' encap_overhead (take inner_len data')
  let headed =
      overwrite shifted 0 (outer_header ((inner_len + encap_overhead) % 2 ^ 16) src_ip dst_ip)
  checksum ← ip_checksum (take outer_ip_header_size headed)
  let summed = overwrite headed 10 (to_be_bytes checksum)
  value (overwrite summed outer_ip_header_size (0x00 ∷ 0x00 ∷ to_be_bytes proto))

-- The new buffer and its length, or `None` if the packet does not fit.
unfoldable pub encapsulate_ipv4_buf : Bytes → ℕ → Ipv4Addr → Ipv4Addr → Checked (Option (Bytes × ℕ))
unfolding encapsulate_fitting
encapsulate_ipv4_buf data' inner_len src_ip dst_ip =
    let new_len = inner_len + encap_overhead in
    if ltb (length data') new_len then value none else (do
      written ← encapsulate_fitting data' inner_len src_ip dst_ip
      value (some (written, new_len)))

unfoldable pub encapsulate_ipv4 : PacketBuf → Ipv4Addr → Ipv4Addr → Checked (PacketBuf × Bool)
unfolding encapsulate_ipv4_buf
encapsulate_ipv4 pkt src_ip dst_ip = do
  r ← encapsulate_ipv4_buf pkt.bytes pkt.len src_ip dst_ip
  value (elim r [
    | none ↦ (pkt, false)
    | some (bytes, len) ↦ (record { bytes = bytes; len = len }, true)
  ])
