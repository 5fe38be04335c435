-- ===== src/Bgp/Messages/Laws.antt =====
-- Every message that is sent is a frame, and the readers read back what the encoders wrote.
-- A whole message: the marker, and a length field that says its length, within the protocol's
-- bounds.
use lb.Forwarder.PacketBuf.{overwrite}
use lb.Types.Net.{Bytes, from_be_bytes, Ipv4Addr, octets4, to_be_bytes}
use lb.Bgp.Messages.{
  encode_keepalive, encode_notification, encode_open, marker, overwrite, from_be_bytes, Ipv4Addr,
  encode_update_announce, value, encode_update_withdraw, fix_length, parse_notification,
  path_attributes, prefix_octets, parse_open_hold_time, octets4, header, type_number, update,
  BgpMessageType, parse_message_type, message_type, is_open, is_notification, Checked, to_be_bytes,
}
use lb.Prelude.Checked.{Checked, value, panic}
use lb.Prelude.{
  arith, get_or, length, refl, take, ℕ, ◌≡◌, ◌≤◌, Bool-cases, [], ap, inl, inr, length-append,
  length-take, ltb, ltb→lt, some, ◌+◌, ◌/◌, ◌<◌, ◌^◌, ◌∷◌, ◌%◌, ◌++◌,
}

pub record IsFrame (b : Bytes) : Type 0 where
  pub marked : take 16 b ≡ marker
  pub least : 19 ≤ length b
  pub most : length b ≤ 4096
  pub sized : from_be_bytes (get_or b 16 0) (get_or b 17 0) ≡ length b

-- The encoders, and the parsers on their results.
pub encode_open-IsFrame : (asn hold : ℕ) (id : Ipv4Addr) → IsFrame (encode_open asn hold id)
unfolding encode_open overwrite
encode_open-IsFrame asn hold id = record {
  marked = refl;
  least = omega arith;
  most = omega arith;
  sized = refl;
}

pub encode_notification-IsFrame : (c s : ℕ) → IsFrame (encode_notification c s)
unfolding encode_notification
encode_notification-IsFrame c s = record {
  marked = refl;
  least = omega arith;
  most = omega arith;
  sized = refl;
}

pub encode_keepalive-IsFrame : IsFrame encode_keepalive
unfolding encode_keepalive
encode_keepalive-IsFrame = record {
  marked = refl;
  least = omega arith;
  most = omega arith;
  sized = refl;
}

-- A body behind a header with its length put in.
pub fix_length-IsFrame :
    (kind : BgpMessageType) (body : Bytes)
    → length body ≤ 4077
    → IsFrame (fix_length (header kind body))
unfolding fix_length overwrite header type_number
fix_length-IsFrame kind body h = record {
  marked = refl;
  least = omega arith;
  most = omega arith;
  sized = omega arith;
}

-- The message is made, and it is a frame.
unfoldable pub SentFrame : Checked Bytes → Type 0
SentFrame (value b) = IsFrame b
SentFrame panic = ⊥

prefix_octets-value :
    (prefix : Ipv4Addr) (len : ℕ)
    → len ≤ 32
    → (o : Bytes) × (prefix_octets prefix len ≡ value o) × (length o ≤ 4)
unfolding prefix_octets octets4
prefix_octets-value prefix len h = elim (Bool-cases (ltb 4 ((len + 7) / 8))) [
  | inl e ↦ absurd (omega (arith, ltb→lt 4 ((len + 7) / 8) e))
  | inr e ↦ (
    take ((len + 7) / 8) (octets4 prefix),
    rw e refl,
    omega (arith, length-take ((len + 7) / 8) (octets4 prefix)),
  )
]

-- For a prefix of at most 32 bits, the UPDATE that announces it is made without a panic, and it is
-- a frame: its marker is in place, its length field is its length, and this lies between 19 and
-- 4096.
pub encode_update_announce-SentFrame :
    (prefix : Ipv4Addr) (len : ℕ) (hop : Ipv4Addr) (asn : ℕ)
    → len ≤ 32
    → SentFrame (encode_update_announce prefix len hop asn)
unfolding encode_update_announce path_attributes octets4 SentFrame
encode_update_announce-SentFrame prefix len hop asn h =
    let (o, e, k) = prefix_octets-value prefix len h in
    let attributes = path_attributes hop asn in
    rw e (
      fix_length-IsFrame update
        (0 ∷ 0 ∷ (to_be_bytes (length attributes % 2 ^ 16) ++ (attributes ++ (len ∷ o))))
        (omega (arith, k)))

-- For a prefix of at most 32 bits, the UPDATE that withdraws it is made without a panic, and it is
-- a frame: its marker is in place, its length field is its length, and this lies between 19 and
-- 4096.
pub encode_update_withdraw-SentFrame :
    (prefix : Ipv4Addr) (len : ℕ) → len ≤ 32 → SentFrame (encode_update_withdraw prefix len)
unfolding encode_update_withdraw SentFrame
encode_update_withdraw-SentFrame prefix len h =
    let (o, e, k) = prefix_octets-value prefix len h in
    rw e (
      fix_length-IsFrame update
        (to_be_bytes ((1 + (len + 7) / 8) % 2 ^ 16) ++ (len ∷ (o ++ (0 ∷ 0 ∷ []))))
        (omega (arith, k, length-append o (0 ∷ 0 ∷ []))))

-- The hold time that an OPEN carries is read back, when it is a number of 16 bits.
pub parse_open_hold_time-encode_open :
    (asn hold : ℕ) (id : Ipv4Addr)
    → hold < 2 ^ 16
    → parse_open_hold_time (encode_open asn hold id) ≡ some hold
unfolding parse_open_hold_time encode_open fix_length overwrite octets4 type_number
    parse_message_type message_type is_open
parse_open_hold_time-encode_open asn hold id h = ap some (omega arith)

-- The code and the subcode of a NOTIFICATION are read back.
pub parse_notification-encode_notification :
    (c s : ℕ) → parse_notification (encode_notification c s) ≡ some (c, s)
unfolding parse_notification encode_notification type_number parse_message_type message_type
    is_notification
parse_notification-encode_notification c s = refl
