-- ===== src/Bgp/Messages.antt =====
-- crates/lb-bgp/src/messages.rs: the messages that are sent, and the parts of those received that
-- are read. A buffer is the list of the bytes put into it; an index is tested before it is used.
use lb.Types.Net.{octets4, Ipv4Addr, Bytes, from_be_bytes, to_be_bytes}
use lb.Forwarder.PacketBuf.{overwrite}
use lb.Prelude.{
  Bool, Option, [], false, get_or, if◌then◌else◌, length, ltb, none, not, replicate, some, take,
  true, ℕ, ◌%◌, ◌++◌, ◌+◌, ◌/◌, ◌==◌, ◌^◌, ◌∷◌,
}
use lb.Prelude.Checked.{Checked, value, panic, ◌>>=◌}
pub mod Laws
mod Tests

abbrev pub marker : Bytes
marker = replicate 16 0xFF

pub data BgpMessageType : Type 0 where
  open_message update notification keepalive : BgpMessageType

-- `as u8`.
unfoldable pub type_number : BgpMessageType → ℕ
type_number open_message = 1
type_number update = 2
type_number notification = 3
type_number keepalive = 4

-- `buf[length_pos] = …; buf[length_pos + 1] = …`, for the length of the whole buffer.
unfoldable pub fix_length : Bytes → Bytes
unfolding overwrite
fix_length buf = overwrite buf 16 (to_be_bytes (length buf % 2 ^ 16))

-- The header with a placeholder for the length, and then the body.
abbrev pub header : BgpMessageType → Bytes → Bytes
unfolding type_number
header kind body = marker ++ (0 ∷ 0 ∷ type_number kind ∷ body)

unfoldable pub encode_open : ℕ → ℕ → Ipv4Addr → Bytes
unfolding fix_length octets4 type_number
encode_open local_asn hold_time router_id = fix_length (
    header open_message
      (4 ∷ (to_be_bytes local_asn ++ (to_be_bytes hold_time ++ (octets4 router_id ++ (0 ∷ []))))))

unfoldable pub encode_keepalive : Bytes
unfolding type_number
encode_keepalive = marker ++ (to_be_bytes 19 ++ (type_number keepalive ∷ []))

unfoldable pub encode_notification : ℕ → ℕ → Bytes
unfolding type_number
encode_notification error_code error_subcode =
    marker ++ (to_be_bytes 21 ++ (type_number notification ∷ error_code ∷ error_subcode ∷ []))

-- `&prefix.octets()[..prefix_bytes]`.
unfoldable pub prefix_octets : Ipv4Addr → ℕ → Checked Bytes
unfolding octets4
prefix_octets prefix prefix_len =
    let prefix_bytes = (prefix_len + 7) / 8 in
    if ltb 4 prefix_bytes then panic else value (take prefix_bytes (octets4 prefix))

-- ORIGIN, AS_PATH and NEXT_HOP.
unfoldable pub path_attributes : Ipv4Addr → ℕ → Bytes
unfolding octets4
path_attributes next_hop local_asn =
    (0x40 ∷ 1 ∷ 1 ∷ 0 ∷ [])
    ++ ((0x40 ∷ 2 ∷ 4 ∷ 2 ∷ 1 ∷ to_be_bytes local_asn) ++ ((0x40 ∷ 3 ∷ 4 ∷ []) ++ octets4 next_hop))

unfoldable pub encode_update_announce : Ipv4Addr → ℕ → Ipv4Addr → ℕ → Checked Bytes
unfolding fix_length prefix_octets path_attributes type_number
encode_update_announce prefix prefix_len next_hop local_asn = do
  let attributes = path_attributes next_hop local_asn
  octets ← prefix_octets prefix prefix_len
  value (
      fix_length (
        header update (
          0
          ∷ 0
          ∷ (to_be_bytes (length attributes % 2 ^ 16) ++ (attributes ++ (prefix_len ∷ octets))))))

unfoldable pub encode_update_withdraw : Ipv4Addr → ℕ → Checked Bytes
unfolding fix_length prefix_octets type_number
encode_update_withdraw prefix prefix_len = do
  octets ← prefix_octets prefix prefix_len
  value (
      fix_length (
        header update (
          to_be_bytes ((1 + (prefix_len + 7) / 8) % 2 ^ 16)
          ++ (prefix_len ∷ (octets ++ (0 ∷ 0 ∷ []))))))

-- The type with this number.
unfoldable pub message_type : ℕ → Option BgpMessageType
message_type n =
    if n == 1
    then some open_message
    else if n == 2
    then some update
    else if n == 3
    then some notification
    else if n == 4
    then some keepalive
    else none

unfoldable pub parse_message_type : Bytes → Option BgpMessageType
unfolding message_type
parse_message_type data' = if ltb (length data') 19 then none else message_type (get_or data' 18 0)

unfoldable pub parse_message_length : Bytes → Option ℕ
parse_message_length data' =
    if ltb (length data') 18
    then none
    else some (from_be_bytes (get_or data' 16 0) (get_or data' 17 0))

-- `matches!(…, Some(kind))` for the two kinds that are asked for.
unfoldable pub is_notification : Option BgpMessageType → Bool
is_notification (some notification) = true
is_notification (some open_message) = false
is_notification (some update) = false
is_notification (some keepalive) = false
is_notification none = false

unfoldable pub is_open : Option BgpMessageType → Bool
is_open (some open_message) = true
is_open (some update) = false
is_open (some notification) = false
is_open (some keepalive) = false
is_open none = false

unfoldable pub parse_notification : Bytes → Option (ℕ × ℕ)
unfolding parse_message_type is_notification
parse_notification data' =
    if ltb (length data') 21
    then none
    else if not (is_notification (parse_message_type data'))
    then none
    else some (get_or data' 19 0, get_or data' 20 0)

unfoldable pub parse_open_hold_time : Bytes → Option ℕ
unfolding parse_message_type is_open
parse_open_hold_time data' =
    if ltb (length data') 24
    then none
    else if not (is_open (parse_message_type data'))
    then none
    else some (from_be_bytes (get_or data' 22 0) (get_or data' 23 0))

-- `error_code`.
abbrev pub hold_timer_expired : ℕ
hold_timer_expired = 4

abbrev pub cease : ℕ
cease = 6
