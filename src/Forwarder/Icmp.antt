-- ===== src/Forwarder/Icmp.antt =====
-- crates/lb-forwarder/src/icmp.rs: the answer to a packet too large for the tunnel, and its rate.
use lb.Forwarder.Checksum.{ip_checksum}
use lb.Forwarder.PacketBuf.{new as empty_buf, PacketBuf, overwrite}
use lb.Types.Mtu.{gre_overhead}
use lb.Prelude.Checked.{Checked, value, panic, ◌>>=◌, index}
pub mod Laws
pub mod Panics
mod Tests
use lb.Types.Net.{Bytes, octets4, Ipv4Addr, unspecified, to_be_bytes}
use lb.Types.Packet.{u16_at}
use lb.Prelude.{
  Bool, [], bit_and, drop, false, if◌then◌else◌, leb, length, ltb, min, not, take, true, ℕ, ◌%◌,
  ◌&&◌, ◌++◌, ◌+◌, ◌-◌, ◌/◌, ◌==◌, ◌^◌, ◌∷◌,
}

-- The sum of two `u16` wraps around, as a release build computes it.
unfoldable pub should_generate_icmp : Bytes → ℕ → Checked Bool
unfolding u16_at
should_generate_icmp data' network_mtu = if ltb (length data') 20 then value false else (do
  first ← index data' 0
  if not (first / 16 == 4) then value false else (do
    total_len ← u16_at data' 2
    flags_frag ← u16_at data' 6
    value (
        not (bit_and flags_frag 0x4000 == 0)
        && ltb network_mtu ((total_len + gre_overhead) % 2 ^ 16))))

-- The sender of the original packet.
unfoldable pub original_source : Bytes → Checked Ipv4Addr
original_source original =
    if leb 16 (length original)
    then (do
      a ← index original 12
      b ← index original 13
      c ← index original 14
      d ← index original 15
      value (record { a = a; b = b; c = c; d = d }))
    else value unspecified

unfoldable pub generate_icmp_frag_needed : Bytes → Ipv4Addr → ℕ → Checked PacketBuf
unfolding original_source octets4
generate_icmp_frag_needed original vip effective_inner_mtu = do
  let payload_len = min (length original) 28
  let total_len = 20 + 8 + payload_len
  dst_ip ← original_source original
  let headed = overwrite empty_buf.bytes 0 (
      (0x45 ∷ 0xC0 ∷ to_be_bytes total_len)
      ++ ((0 ∷ 0 ∷ 0 ∷ 0 ∷ 64 ∷ 1 ∷ 0 ∷ 0 ∷ []) ++ (octets4 vip ++ octets4 dst_ip)))
  ip_cksum ← ip_checksum (take 20 headed)
  let addressed = overwrite headed 10 (to_be_bytes ip_cksum)
  let typed = overwrite addressed 20 (3 ∷ 4 ∷ 0 ∷ 0 ∷ 0 ∷ 0 ∷ to_be_bytes effective_inner_mtu)
  let filled = overwrite typed 28 (take payload_len original)
  icmp_cksum ← ip_checksum (drop 20 (take total_len filled))
  value (record { bytes = overwrite filled 22 (to_be_bytes icmp_cksum); len = total_len })

pub record IcmpRateLimiter : Type 0 where
  pub max_per_second : ℕ
  pub count : ℕ
  pub window_start : ℕ

-- A point in time is a number of nanoseconds.
abbrev pub second : ℕ
second = 1000000000

unfoldable pub new : ℕ → ℕ → IcmpRateLimiter
new max_per_second now = record { max_per_second = max_per_second; count = 0; window_start = now }

-- The start of a new window, where the last is over.
unfoldable pub renew : IcmpRateLimiter → ℕ → IcmpRateLimiter
renew r now =
    if leb 1 ((now - r.window_start) / second)
    then record r { count = 0; window_start = now }
    else r

unfoldable pub allow : IcmpRateLimiter → ℕ → IcmpRateLimiter × Bool
unfolding renew
allow r now =
    if r.max_per_second == 0
    then (r, false)
    else (let w = renew r now in
        if ltb w.count w.max_per_second
        then (record w { count = w.count + 1 }, true)
        else (w, false))
