-- ===== src/Types/Packet/Parsed.antt =====
-- The accesses of the readers of packets (crates/lb-types/src/packet.rs) to their slice.
use lb.Prelude.{
  Option, arith, get_or, length, none, some, ℕ, ◌+◌, ◌<◌, ◌≡◌, ◌≤◌, [], bit_and, leb, leb→le, ltb,
  not, ◌*◌, ◌/◌, ◌==◌, ◌||◌, ◌∷◌,
}
use lb.Types.Net.{Bytes, from_be_bytes}
use lb.Prelude.Checked.{value, index, index-value, Runs, if-Runs, >>=-Runs, index-Runs}
use lb.Types.Packet.{
  from_ipv4_bytes, from_ipv6_bytes, from_ip_bytes, u16_at, ipv4_at, flags_at, ipv4_meta, Protocol,
  ipv6_meta, fragment_id, is_non_first_fragment, is_fragment, ipv6_at, from_ip_proto,
}

module _ (data' : Bytes) where
  ipv4_at-Runs : (i : ℕ) → i + 3 < length data' → Runs (ipv4_at data' i)
  unfolding ipv4_at
  ipv4_at-Runs i h =
      rw
        (
          index-value data' i (omega arith),
          index-value data' (i + 1) (omega arith),
          index-value data' (i + 2) (omega arith),
          index-value data' (i + 3) (omega arith),
          Runs,
        )
        tt

  pub u16_at-value :
      (i : ℕ)
      → i + 1 < length data'
      → u16_at data' i ≡ value (from_be_bytes (get_or data' i 0) (get_or data' (i + 1) 0))
  unfolding u16_at
  u16_at-value i h = rw (index-value data' i (omega arith), index-value data' (i + 1) (omega arith))

  pub u16_at-Runs : (i : ℕ) → i + 1 < length data' → Runs (u16_at data' i)
  u16_at-Runs i h = rw (u16_at-value i h, Runs) tt

  ipv6_at-Runs : (i : ℕ) → i + 15 < length data' → Runs (ipv6_at data' i)
  unfolding ipv6_at
  ipv6_at-Runs i h =
      rw
        (
          u16_at-value i (omega arith),
          u16_at-value (i + 2) (omega arith),
          u16_at-value (i + 4) (omega arith),
          u16_at-value (i + 6) (omega arith),
          u16_at-value (i + 8) (omega arith),
          u16_at-value (i + 10) (omega arith),
          u16_at-value (i + 12) (omega arith),
          u16_at-value (i + 14) (omega arith),
          Runs,
        )
        tt

  flags_at-Runs : (p : Protocol) (i : ℕ) → Runs (flags_at p data' i)
  unfolding flags_at
  flags_at-Runs Protocol.udp i = tt
  flags_at-Runs Protocol.tcp i =
      if-Runs (leb (i + 14) (length data')) _ _
        (λ h.
          >>=-Runs (index data' (i + 13)) _
            (index-Runs data' (i + 13) (let b = leb→le _ _ h in omega arith)) (λ flags. tt))
        (λ h. tt)

  ipv4_meta-Runs :
      (p : Option Protocol) (ihl : ℕ)
      → 24 ≤ length data'
      → ihl + 4 ≤ length data'
      → Runs (ipv4_meta p data' ihl)
  unfolding ipv4_meta
  ipv4_meta-Runs none ihl h k = tt
  ipv4_meta-Runs (some p) ihl h k =
      >>=-Runs (ipv4_at data' 12) _ (ipv4_at-Runs 12 (omega arith)) λ src.
        >>=-Runs (ipv4_at data' 16) _ (ipv4_at-Runs 16 (omega arith)) λ dst.
          >>=-Runs (u16_at data' ihl) _ (u16_at-Runs ihl (omega arith)) λ sp.
            >>=-Runs (u16_at data' (ihl + 2)) _ (u16_at-Runs (ihl + 2) (omega arith))
              λ dp. >>=-Runs (flags_at p data' ihl) _ (flags_at-Runs p ihl) λ flags. tt

  ipv6_meta-Runs : (p : Option Protocol) → 44 ≤ length data' → Runs (ipv6_meta p data')
  unfolding ipv6_meta
  ipv6_meta-Runs none h = tt
  ipv6_meta-Runs (some p) h = >>=-Runs (ipv6_at data' 8) _ (ipv6_at-Runs 8 (omega arith)) λ src.
      >>=-Runs (ipv6_at data' 24) _ (ipv6_at-Runs 24 (omega arith)) λ dst.
        >>=-Runs (u16_at data' 40) _ (u16_at-Runs 40 (omega arith)) λ sp.
          >>=-Runs (u16_at data' 42) _ (u16_at-Runs 42 (omega arith))
            λ dp. >>=-Runs (flags_at p data' 40) _ (flags_at-Runs p 40) λ flags. tt

  pub from_ipv4_bytes-Runs : Runs (from_ipv4_bytes data')
  unfolding from_ipv4_bytes
  from_ipv4_bytes-Runs =
      if-Runs (ltb (length data') 24) _ _ (λ h. tt)
        λ h. >>=-Runs (index data' 0) _ (index-Runs data' 0 (ground arith)) λ first.
          if-Runs (not (first / 16 == 4) || ltb (length data') (bit_and first 0x0F * 4 + 4)) _ _
            (λ k. tt)
            λ k. >>=-Runs (index data' 9) _ (index-Runs data' 9 (ground arith)) λ p.
              ipv4_meta-Runs (from_ip_proto p) (bit_and first 0x0F * 4) (ground arith)
                (ground arith)

  pub from_ipv6_bytes-Runs : Runs (from_ipv6_bytes data')
  unfolding from_ipv6_bytes
  from_ipv6_bytes-Runs =
      if-Runs (ltb (length data') 44) _ _ (λ h. tt)
        λ h. >>=-Runs (index data' 0) _ (index-Runs data' 0 (ground arith)) λ first.
          if-Runs (not (first / 16 == 6)) _ _ (λ k. tt)
            λ k.
              >>=-Runs (index data' 6) _ (index-Runs data' 6 (ground arith))
                λ p. ipv6_meta-Runs (from_ip_proto p) (ground arith)

  pub fragment_id-Runs : Runs (fragment_id data')
  unfolding fragment_id
  fragment_id-Runs =
      if-Runs (ltb (length data') 20) _ _ (λ h. tt)
        λ h. >>=-Runs (index data' 0) _ (index-Runs data' 0 (ground arith)) λ first.
          if-Runs (not (first / 16 == 4)) _ _ (λ k. tt)
            λ k. >>=-Runs (u16_at data' 4) _ (u16_at-Runs 4 (ground arith)) λ id.
              >>=-Runs (ipv4_at data' 12) _ (ipv4_at-Runs 12 (ground arith))
                λ src. >>=-Runs (ipv4_at data' 16) _ (ipv4_at-Runs 16 (ground arith)) λ dst. tt

  pub is_fragment-Runs : Runs (is_fragment data')
  unfolding is_fragment
  is_fragment-Runs =
      if-Runs (ltb (length data') 20) _ _ (λ h. tt)
        λ h. >>=-Runs (u16_at data' 6) _ (u16_at-Runs 6 (ground arith)) λ word. tt

  pub is_non_first_fragment-Runs : Runs (is_non_first_fragment data')
  unfolding is_non_first_fragment
  is_non_first_fragment-Runs =
      if-Runs (ltb (length data') 20) _ _ (λ h. tt)
        λ h. >>=-Runs (u16_at data' 6) _ (u16_at-Runs 6 (ground arith)) λ word. tt

from_ip_bytes-Runs : (data' : Bytes) → Runs (from_ip_bytes data')
unfolding from_ip_bytes
from_ip_bytes-Runs [] = tt
from_ip_bytes-Runs (first ∷ rest) =
    if-Runs (first / 16 == 4) _ _ (λ h. from_ipv4_bytes-Runs (first ∷ rest))
      λ h. if-Runs (first / 16 == 6) _ _ (λ k. from_ipv6_bytes-Runs (first ∷ rest)) λ k. tt

-- No slice makes a reader of packets panic: the parser that tells the versions apart, that of each
-- version, that of the fragment's identity, and the tests for fragments each return for every slice
-- of bytes, the empty one and those of the other version included.
pub readers-Runs :
    (data' : Bytes)
    → Runs (from_ip_bytes data')
      × Runs (from_ipv4_bytes data')
      × Runs (fragment_id data')
      × Runs (is_fragment data')
      × Runs (is_non_first_fragment data')
      × Runs (from_ipv6_bytes data')
readers-Runs data' = (
  from_ip_bytes-Runs data',
  from_ipv4_bytes-Runs data',
  fragment_id-Runs data',
  is_fragment-Runs data',
  is_non_first_fragment-Runs data',
  from_ipv6_bytes-Runs data',
)
