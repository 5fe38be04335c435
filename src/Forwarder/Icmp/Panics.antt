-- ===== src/Forwarder/Icmp/Panics.antt =====
-- No packet makes the ICMP answers panic.
use lb.Types.Packet.{u16_at}
use lb.Prelude.{
  [], arith, drop, leb, length, ltb, not, take, ℕ, ◌/◌, ◌<◌, ◌==◌, ◌∷◌, length-drop,
  length-replicate, length-take, min, ◌++◌, ◌+◌, ◌∙◌, ◌≡◌, ◌≤◌,
}
use lb.Prelude.Checked.{Runs, if-Runs, >>=-Runs, index-Runs, index}
use lb.Types.Net.{Bytes, Ipv4Addr, to_be_bytes, octets4}
use lb.Types.Packet.Parsed.{u16_at-Runs}
use lb.Forwarder.PacketBuf.{overwrite, length-overwrite}
use lb.Forwarder.Checksum.{ip_checksum}
use lb.Forwarder.PacketBuf.{new as empty_buf}
use lb.Forwarder.Icmp.{
  generate_icmp_frag_needed, original_source, should_generate_icmp, u16_at, to_be_bytes, octets4,
}

pub should_generate_icmp-Runs : (data' : Bytes) (mtu : ℕ) → Runs (should_generate_icmp data' mtu)
unfolding should_generate_icmp
should_generate_icmp-Runs data' mtu =
    if-Runs (ltb (length data') 20) _ _ (λ _. tt)
      (λ h. >>=-Runs (index data' 0) _ (index-Runs data' 0 (ground arith)) (λ first.
        if-Runs (not (first / 16 == 4)) _ _ (λ _. tt)
          (λ _. >>=-Runs (u16_at data' 2) _ (u16_at-Runs data' 2 (ground arith)) (λ total_len.
            >>=-Runs (u16_at data' 6) _ (u16_at-Runs data' 6 (ground arith)) (λ flags. tt)))))

original_source-Runs : (original : Bytes) → Runs (original_source original)
unfolding original_source
original_source-Runs original =
    if-Runs (leb 16 (length original)) _ _
      (λ h. >>=-Runs (index original 12) _ (index-Runs original 12 (ground arith)) (λ a.
        >>=-Runs (index original 13) _ (index-Runs original 13 (ground arith)) (λ b.
          >>=-Runs (index original 14) _ (index-Runs original 14 (ground arith)) (λ c.
            >>=-Runs (index original 15) _ (index-Runs original 15 (ground arith)) (λ d. tt)))))
      (λ _. tt)

ip_checksum-Runs : (header : Bytes) → 0 < length header → Runs (ip_checksum header)
unfolding ip_checksum
ip_checksum-Runs [] h = absurd (omega arith)
ip_checksum-Runs (x ∷ rest) h = tt

-- A buffer of a packet, and what is written into it.
IsBuffer : Bytes → Type 0
IsBuffer b = length b ≡ 2048

empty_buf-IsBuffer : IsBuffer empty_buf.bytes
unfolding IsBuffer empty_buf
empty_buf-IsBuffer = length-replicate {A = ℕ} 2048 0

overwrite-IsBuffer : (b : Bytes) (i : ℕ) (src : Bytes) → IsBuffer b → IsBuffer (overwrite b i src)
unfolding IsBuffer
overwrite-IsBuffer b i src h = length-overwrite b i src ∙ h

header-Runs : (b : Bytes) → IsBuffer b → Runs (ip_checksum (take 20 b))
unfolding IsBuffer
header-Runs b h = ip_checksum-Runs (take 20 b) (omega (arith, h, length-take 20 b))

body-Runs : (b : Bytes) (n : ℕ) → IsBuffer b → 28 ≤ n → Runs (ip_checksum (drop 20 (take n b)))
unfolding IsBuffer
body-Runs b n h k =
    ip_checksum-Runs (drop 20 (take n b))
      (omega (arith, h, k, length-take n b, length-drop 20 (take n b)))

pub generate_icmp_frag_needed-Runs :
    (original : Bytes) (vip : Ipv4Addr) (mtu : ℕ)
    → Runs (generate_icmp_frag_needed original vip mtu)
unfolding generate_icmp_frag_needed
generate_icmp_frag_needed-Runs original vip mtu =
    let payload_len = min (length original) 28 in
    let total_len = 20 + 8 + payload_len in
    >>=-Runs (original_source original) _ (original_source-Runs original) (λ dst.
      let headed = overwrite empty_buf.bytes 0 (
        (0x45 ∷ 0xC0 ∷ to_be_bytes total_len)
        ++ ((0 ∷ 0 ∷ 0 ∷ 0 ∷ 64 ∷ 1 ∷ 0 ∷ 0 ∷ []) ++ (octets4 vip ++ octets4 dst))) in
      let h = overwrite-IsBuffer empty_buf.bytes 0 _ empty_buf-IsBuffer in
      >>=-Runs (ip_checksum (take 20 headed)) _ (header-Runs headed h) (λ c.
        let addressed = overwrite headed 10 (to_be_bytes c) in
        let typed = overwrite addressed 20 (3 ∷ 4 ∷ 0 ∷ 0 ∷ 0 ∷ 0 ∷ to_be_bytes mtu) in
        let filled = overwrite typed 28 (take payload_len original) in
        >>=-Runs (ip_checksum (drop 20 (take total_len filled))) _
          (body-Runs filled total_len
            (overwrite-IsBuffer typed 28 _
              (overwrite-IsBuffer addressed 20 _ (overwrite-IsBuffer headed 10 _ h)))
            (omega arith))
          (λ d. tt)))
