-- ===== src/Forwarder/PacketBuf.antt =====
-- crates/lb-io/src/lib.rs: `PacketBuf`, a buffer of fixed size with the length that is in use.
use lb.Prelude.Checked.{◌>>=◌, Checked, value, panic}
use lb.Prelude.{
  ltb, not-ltb, if◌then◌else◌, [], ap, arith, length, min, refl, replicate, suc, take, zero, ℕ,
  ◌++◌, ◌∷◌, ◌≡◌, ◌≤◌,
}
use lb.Types.Net.{Bytes}

abbrev pub packet_buf_size : ℕ
packet_buf_size = 2048

pub record PacketBuf : Type 0 where
  pub bytes : Bytes
  pub len : ℕ

-- `dst[i..i + src.len()].copy_from_slice(src)`, where the range lies inside.
unfoldable pub overwrite : Bytes → ℕ → Bytes → Bytes
overwrite [] i src = []
overwrite (x ∷ xs) zero [] = x ∷ xs
overwrite (x ∷ xs) zero (b ∷ bs) = b ∷ overwrite xs zero bs
overwrite (x ∷ xs) (suc i) src = x ∷ overwrite xs i src

unfoldable pub new : PacketBuf
new = record { bytes = replicate packet_buf_size 0; len = 0 }

unfoldable pub from_slice : Bytes → PacketBuf
from_slice slice =
    let copy_len = min (length slice) packet_buf_size in
    record { bytes = overwrite new.bytes 0 (take copy_len slice); len = copy_len }

-- The bytes in use.
abbrev pub in_use : PacketBuf → Bytes
in_use p = take p.len p.bytes

-- `&self.data[..self.len]`, which panics for a length beyond the buffer; `as_mut_slice` and the
-- `as_slice` of a frame are alike.
unfoldable pub as_slice : PacketBuf → Checked Bytes
as_slice p = if ltb (length p.bytes) p.len then panic else value (in_use p)

-- The length is within the buffer.
abbrev pub Fits : PacketBuf → Type 0
Fits p = p.len ≤ length p.bytes

pub as_slice-value : (p : PacketBuf) → Fits p → as_slice p ≡ value (in_use p)
unfolding as_slice
as_slice-value p h = rw (not-ltb (length p.bytes) p.len h) refl

-- What goes on from the bytes in use.
pub sliced {ℓ κ} :
    {A : Type ℓ} (P : Checked A → Type κ) (p : PacketBuf) (k : Bytes → Checked A)
    → Fits p
    → P (k (in_use p))
    → P (as_slice p >>= k)
sliced P p k h holds = rw (as_slice-value p h) holds

pub overwrite-nil : (xs : Bytes) → overwrite xs 0 [] ≡ xs
unfolding overwrite
overwrite-nil [] = refl
overwrite-nil (x ∷ xs) = refl

pub overwrite-append :
    (xs src ys : Bytes) → length src ≡ length xs → overwrite (xs ++ ys) 0 src ≡ src ++ ys
unfolding overwrite
overwrite-append [] [] [] e = refl
overwrite-append [] [] (y ∷ ys) e = refl
overwrite-append [] (b ∷ bs) ys e = absurd (omega arith)
overwrite-append (x ∷ xs) [] ys e = absurd (omega arith)
overwrite-append (x ∷ xs) (b ∷ bs) ys e = ap (◌∷◌ b) (overwrite-append xs bs ys (omega arith))

pub overwrite-skip :
    (xs ys src : Bytes) → overwrite (xs ++ ys) (length xs) src ≡ xs ++ overwrite ys 0 src
unfolding overwrite
overwrite-skip [] ys src = refl
overwrite-skip (x ∷ xs) ys src = ap (◌∷◌ x) (overwrite-skip xs ys src)

pub length-overwrite : (xs : Bytes) (i : ℕ) (src : Bytes) → length (overwrite xs i src) ≡ length xs
unfolding overwrite
length-overwrite [] i src = refl
length-overwrite (x ∷ xs) zero [] = refl
length-overwrite (x ∷ xs) zero (b ∷ bs) = ap suc (length-overwrite xs zero bs)
length-overwrite (x ∷ xs) (suc i) src = ap suc (length-overwrite xs i src)

pub take-overwrite :
    (xs src : Bytes) (n : ℕ) → n ≡ length src → n ≤ length xs → take n (overwrite xs 0 src) ≡ src
unfolding overwrite
take-overwrite xs [] zero e h = refl
take-overwrite xs [] (suc n) e h = absurd (omega arith)
take-overwrite [] (b ∷ bs) n e h = absurd (omega arith)
take-overwrite (x ∷ xs) (b ∷ bs) zero e h = absurd (omega arith)
take-overwrite (x ∷ xs) (b ∷ bs) (suc n) e h =
    ap (◌∷◌ b) (take-overwrite xs bs n (omega arith) (omega arith))
