-- ===== src/Forwarder/Checksum.antt =====
-- The one's complement checksum, `ip_checksum` of crates/lb-forwarder/src/gre.rs and icmp.rs, and
-- the incremental update of mss_clamp.rs.
use lb.Prelude.{[], bit_and, if◌then◌else◌, ltb, suc, zero, ℕ, ◌%◌, ◌*◌, ◌+◌, ◌-◌, ◌/◌, ◌^◌, ◌∷◌}
use lb.Types.Net.{Bytes}
use lb.Prelude.Checked.{Checked, value, panic}
use lb.Prelude.Bits.{bit_and-mask}
pub mod Laws
mod Tests

-- The sum of the 16-bit words, in a `u32`; an odd byte at the end stands for a high one.
unfoldable pub sum_words : ℕ → Bytes → ℕ
sum_words acc [] = acc
sum_words acc (x ∷ []) = (acc + x * 256) % 2 ^ 32
sum_words acc (x ∷ y ∷ rest) = sum_words ((acc + (x * 256 + y)) % 2 ^ 32) rest

-- `while sum > 0xFFFF { sum = (sum & 0xFFFF) + (sum >> 16); }`; three rounds are enough for a `u32`.
unfoldable pub fold_carry : ℕ → ℕ → ℕ
fold_carry zero sum = sum
fold_carry (suc f) sum =
    let rest = fold_carry f (bit_and sum 0xFFFF + sum / 2 ^ 16) in
    if ltb 0xFFFF sum then rest else sum

abbrev pub rounds : ℕ
rounds = 3

-- `!(x as u16)`.
abbrev pub not16 : ℕ → ℕ
not16 x = 0xFFFF - x % 2 ^ 16

-- `header.len() - 1` underflows on an empty slice.
unfoldable pub ip_checksum : Bytes → Checked ℕ
ip_checksum [] = panic
ip_checksum (x ∷ rest) = value (not16 (fold_carry rounds (sum_words 0 (x ∷ rest))))

-- The new checksum for a 16-bit word that changes.
unfoldable pub incremental_checksum : ℕ → ℕ → ℕ → ℕ
incremental_checksum old_checksum old_word new_word =
    not16 (fold_carry rounds (not16 old_checksum + not16 old_word + new_word))
