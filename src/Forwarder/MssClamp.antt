-- ===== src/Forwarder/MssClamp.antt =====
-- crates/lb-forwarder/src/mss_clamp.rs: the MSS option of a SYN is lowered to what the tunnel carries.
use lb.Forwarder.PacketBuf.{overwrite}
use lb.Prelude.Checked.{Checked, value, panic, ◌>>=◌, index}
pub mod Laws
mod Tests
use lb.Types.Packet.{u16_at}
use lb.Types.Net.{Bytes, to_be_bytes}
use lb.Forwarder.Checksum.{incremental_checksum}
use lb.Prelude.{
  bit_and, if◌then◌else◌, leb, length, ltb, not, suc, zero, ℕ, ◌&&◌, ◌*◌, ◌+◌, ◌/◌, ◌==◌, ◌||◌, ◌-◌,
}

pub data ClampResult : Type 0 where
  not_tcp not_syn clamped noop mss_missing : ClampResult

-- `incremental_checksum_update`: the two bytes of the checksum, for a word that has changed.
unfoldable pub incremental_checksum_update : Bytes → ℕ → ℕ → ℕ → Checked Bytes
unfolding incremental_checksum
incremental_checksum_update data' checksum_offset old_word new_word = do
  old_checksum ← u16_at data' checksum_offset
  value (
      overwrite data' checksum_offset
        (to_be_bytes (incremental_checksum old_checksum old_word new_word)))

-- The MSS option at `offset`.
unfoldable pub clamp_option : Bytes → ℕ → ℕ → ℕ → ℕ → Checked (Bytes × ClampResult)
unfolding u16_at incremental_checksum_update
clamp_option data' max_mss ihl options_end offset =
    if ltb options_end (offset + 4) then value (data', mss_missing) else (do
      current_mss ← u16_at data' (offset + 2)
      if ltb max_mss current_mss
          then (do
            updated ←
                incremental_checksum_update (overwrite data' (offset + 2) (to_be_bytes max_mss))
                  (ihl + 16) current_mss max_mss
            value (updated, clamped))
          else value (data', noop))

-- The loop over the options; running out of fuel counts as a panic.
unfoldable pub scan : ℕ → Bytes → ℕ → ℕ → ℕ → ℕ → Checked (Bytes × ClampResult)
unfolding clamp_option
scan zero data' max_mss ihl options_end offset = panic
scan (suc n) data' max_mss ihl options_end offset =
    let next = scan n data' max_mss ihl options_end in
    if not (ltb offset options_end) then value (data', mss_missing) else (do
      kind ← index data' offset
      if kind == 0
          then value (data', mss_missing)
          else if kind == 1
          then next (offset + 1)
          else if leb options_end (offset + 1)
          then value (data', mss_missing)
          else (do
            len ← index data' (offset + 1)
            if ltb len 2
                then value (data', mss_missing)
                else if (kind == 2) && (len == 4)
                then clamp_option data' max_mss ihl options_end offset
                else next (offset + len)))

-- The tail of `clamp_mss`, for a TCP segment with its header at `ihl`; every round of the loop goes
-- on by at least 1, so that the length of the options and one more is fuel enough.
unfoldable pub clamp_tcp : Bytes → ℕ → ℕ → Checked (Bytes × ClampResult)
unfolding scan
clamp_tcp data' max_mss ihl = do
  flags ← index data' (ihl + 13)
  if bit_and flags 0x02 == 0 then value (data', not_syn) else (do
    word ← index data' (ihl + 12)
    let data_offset = word / 16 * 4
    if ltb data_offset 20 || ltb (length data') (ihl + data_offset)
        then value (data', mss_missing)
        else scan (suc (data_offset - 20)) data' max_mss ihl (ihl + data_offset) (ihl + 20))

unfoldable pub clamp_mss : Bytes → ℕ → Checked (Bytes × ClampResult)
unfolding clamp_tcp
clamp_mss data' max_mss = if ltb (length data') 40 then value (data', not_tcp) else (do
  first ← index data' 0
  if not (first / 16 == 4) then value (data', not_tcp) else (do
    protocol ← index data' 9
    let ihl = bit_and first 0x0F * 4
    if not (protocol == 6) || ltb (length data') (ihl + 20)
        then value (data', not_tcp)
        else clamp_tcp data' max_mss ihl))
