-- ===== src/Types/Packet/Header.antt =====
-- `from_ipv4_bytes` against the layout of an IPv4 packet: a header of `w` words, then the ports.
use lb.Prelude.{
  Option, arith, get_or, if◌then◌else◌, leb, length, length-append, none, refl, some, ℕ, ◌*◌, ◌++◌,
  ◌+◌, ◌<◌, ◌∷◌, ◌≡◌, ◌≤◌, ==_iff, Bool-cases, bit_and, false, get_or-append_left,
  get_or-append_right, inl, inr, leb→le, ltb, true, ◌/◌, ◌==◌, ◌∙◌, ap, suc,
}
use mathlib.Core.Path.{ap₂}
use lb.Types.Net.{Bytes, v4, from_be_bytes, IpAddr}
use lb.Prelude.Bits.{bit_and-mask}
use lb.Prelude.Checked.{value, index-value}
use lb.Types.Packet.{
  from_ipv4_bytes, Protocol, tcp, udp, ipv4_at, u16_at, flags_at, ipv4_meta, from_ip_proto,
}
use lb.Types.Packet.Parsed.{u16_at-value}

abbrev pub address : Bytes → ℕ → IpAddr
address data' i = v4 (record {
  a = get_or data' i 0;
  b = get_or data' (i + 1) 0;
  c = get_or data' (i + 2) 0;
  d = get_or data' (i + 3) 0;
})

-- The flags of a TCP segment of which the ports and then `rest` are given.
unfoldable pub flags_of : Protocol → Bytes → Option ℕ
flags_of tcp rest = if leb 10 (length rest) then some (get_or rest 9 0) else none
flags_of udp rest = none

ipv4_at-value :
    (data' : Bytes) (i : ℕ) → i + 3 < length data' → ipv4_at data' i ≡ value (address data' i)
unfolding ipv4_at
ipv4_at-value data' i h = rw (
  index-value data' i (omega arith),
  index-value data' (i + 1) (omega arith),
  index-value data' (i + 2) (omega arith),
  index-value data' (i + 3) (omega arith),
)

-- The guards of the parser, passed.
reads :
    (data' : Bytes) (w : ℕ) (p : Protocol)
    → 24 ≤ length data'
    → w * 4 + 4 ≤ length data'
    → w < 16
    → get_or data' 0 0 ≡ 64 + w
    → from_ip_proto (get_or data' 9 0) ≡ some p
    → from_ipv4_bytes data' ≡ ipv4_meta (some p) data' (w * 4)
unfolding from_ipv4_bytes
reads data' w p h k high first proto =
    let ihl : bit_and (64 + w) 0x0F ≡ w = bit_and-mask 4 (64 + w) ∙ omega arith in
    let long : ltb (length data') 24 ≡ false = ground arith in
    let version : ((64 + w) / 16 == 4) ≡ true = (==_iff _ _).1 (omega arith) in
    let ports : ltb (length data') (w * 4 + 4) ≡ false = ground arith in
    rw long (
      rw (index-value data' 0 (omega arith), first)
        (rw (version, ihl, ports)
          (rw (index-value data' 9 (omega arith))
            (ap (λ (q : Option Protocol). ipv4_meta q data' (w * 4)) proto))))

module _ (head rest : Bytes) (w s1 s2 d1 d2 : ℕ) where
  -- The packet: a header, two ports and what follows them.
  abbrev pub packet : Bytes
  packet = head ++ (s1 ∷ s2 ∷ d1 ∷ d2 ∷ rest)

  module _ (words : length head ≡ w * 4) (low : 5 ≤ w) (high : w < 16) where
    packet-length : length packet ≡ w * 4 + 4 + length rest
    packet-length = omega (arith, length-append head (s1 ∷ s2 ∷ d1 ∷ d2 ∷ rest))

    address_left : (i : ℕ) → i + 3 < 20 → address packet i ≡ address head i
    address_left i h =
        let left = λ (k : ℕ) (b : k < 20).
          get_or-append_left head (s1 ∷ s2 ∷ d1 ∷ d2 ∷ rest) k 0 (omega arith) in
        rw (
          left i (omega arith),
          left (i + 1) (omega arith),
          left (i + 2) (omega arith),
          left (i + 3) h,
        )

    flags_at-flags_of : (p : Protocol) → flags_at p packet (w * 4) ≡ value (flags_of p rest)
    unfolding flags_at flags_of
    flags_at-flags_of Protocol.udp = refl
    flags_at-flags_of Protocol.tcp = elim (Bool-cases (leb 10 (length rest))) [
      | inl long ↦
          let long' : leb (w * 4 + 14) (length packet) ≡ true = ground (arith, packet-length) in
          rw (long, long')
            (rw (
              index-value packet (w * 4 + 13) (omega (arith, packet-length, leb→le _ _ long)),
              get_or-append_right head (s1 ∷ s2 ∷ d1 ∷ d2 ∷ rest) (w * 4 + 13) 13 0 (omega arith),
            ))
      | inr short ↦
          let short' : leb (w * 4 + 14) (length packet) ≡ false = ground (arith, packet-length) in
          rw (short, short')
    ]

    port_at : (k : ℕ) → k < 4 → get_or packet (w * 4 + k) 0 ≡ get_or (s1 ∷ s2 ∷ d1 ∷ d2 ∷ rest) k 0
    port_at k h = get_or-append_right head (s1 ∷ s2 ∷ d1 ∷ d2 ∷ rest) (w * 4 + k) k 0 (omega arith)

    word_at :
        (k : ℕ)
        → k < 3
        → u16_at packet (w * 4 + k)
          ≡ value (
              from_be_bytes
                (get_or (s1 ∷ s2 ∷ d1 ∷ d2 ∷ rest) k 0)
                (get_or (s1 ∷ s2 ∷ d1 ∷ d2 ∷ rest) (suc k) 0))
    word_at k h =
        let next : w * 4 + k + 1 ≡ w * 4 + suc k = omega arith in
        u16_at-value packet (w * 4 + k) (omega (arith, packet-length))
        ∙ rw (next, port_at k (omega arith), port_at (suc k) (omega arith)) refl

    ipv4_meta-packet :
        (p : Protocol)
        → ipv4_meta (some p) packet (w * 4)
          ≡ value (
              some (record {
                src_ip = address head 12;
                dst_ip = address head 16;
                src_port = from_be_bytes s1 s2;
                dst_port = from_be_bytes d1 d2;
                protocol = p;
                tcp_flags = flags_of p rest;
              }))
    unfolding ipv4_meta
    ipv4_meta-packet p =
        let start : w * 4 + 0 ≡ w * 4 = omega arith in
        let sp : u16_at packet (w * 4) ≡ value (from_be_bytes s1 s2) =
          rw start at (word_at 0 (omega arith)) in
        rw
          (
            ipv4_at-value packet 12 (omega (arith, packet-length)),
            ipv4_at-value packet 16 (omega (arith, packet-length)),
            sp,
            word_at 2 (omega arith),
            flags_at-flags_of p,
          )
          (ap₂
            (λ (a b : IpAddr). value (
              some (record {
                src_ip = a;
                dst_ip = b;
                src_port = from_be_bytes s1 s2;
                dst_port = from_be_bytes d1 d2;
                protocol = p;
                tcp_flags = flags_of p rest;
              })))
            (address_left 12 (omega arith)) (address_left 16 (omega arith)))

    -- A packet whose header says version 4, `w` words (5 to 15) and TCP or UDP, and is that long,
    -- is read: the addresses are bytes 12 to 15 and 16 to 19, the ports are the two words after
    -- the header, whatever options it has, and the flags are byte 13 of a TCP segment that
    -- reaches beyond it.
    pub from_ipv4_bytes-packet :
        (p : Protocol)
        → get_or head 0 0 ≡ 64 + w
        → from_ip_proto (get_or head 9 0) ≡ some p
        → from_ipv4_bytes packet
          ≡ value (
              some (record {
                src_ip = address head 12;
                dst_ip = address head 16;
                src_port = from_be_bytes s1 s2;
                dst_port = from_be_bytes d1 d2;
                protocol = p;
                tcp_flags = flags_of p rest;
              }))
    from_ipv4_bytes-packet p first proto =
        let left = λ (k : ℕ) (b : k < 20).
          get_or-append_left head (s1 ∷ s2 ∷ d1 ∷ d2 ∷ rest) k 0 (omega arith) in
        reads packet w p (omega (arith, packet-length)) (omega (arith, packet-length)) high
          (left 0 (omega arith) ∙ first) (rw (left 9 (omega arith)) proto)
        ∙ ipv4_meta-packet p
