-- ===== src/Hashing/Permutation.antt =====
-- crates/lb-hashing/src/permutation.rs: the preference list of a backend. The hash function is
-- the crate xxhash_rust, a parameter with the range of its results.
use lb.Prelude.{ℕ, ◌+◌, ◌-◌, ◌*◌, ◌%◌, ◌^◌, ◌<◌, List, zero, suc, [], ◌∷◌}
use lb.Types.Net.{Bytes}

pub record Hasher : Type 0 where
  pub xxh3_64_with_seed : Bytes → ℕ → ℕ
  pub xxh3_64 : Bytes → ℕ
  pub with_seed-lt : (s : Bytes) (seed : ℕ) → xxh3_64_with_seed s seed < 2 ^ 64
  pub xxh3-lt : (s : Bytes) → xxh3_64 s < 2 ^ 64

-- The wrap-around of `usize`, on a 64-bit machine.
abbrev pub usize : ℕ → ℕ
usize n = n % 2 ^ 64

unfoldable pub offset : Hasher → Bytes → ℕ → ℕ
offset hasher name m = hasher.xxh3_64_with_seed name 0 % m

unfoldable pub skip : Hasher → Bytes → ℕ → ℕ
skip hasher name m = usize (hasher.xxh3_64_with_seed name 1 % (m - 1) + 1)

-- Entry `j` of the list with offset `o` and skip `s`: `(o + j * s) % m`.
unfoldable pub preference : ℕ → ℕ → ℕ → ℕ → ℕ
preference m o s j = usize (o + usize (j * s)) % m

preferences_from : ℕ → ℕ → ℕ → ℕ → ℕ → List ℕ
preferences_from zero j m o s = []
preferences_from (suc n) j m o s = preference m o s j ∷ preferences_from n (j + 1) m o s

unfoldable pub preference_list : Hasher → Bytes → ℕ → List ℕ
unfolding preferences_from
preference_list hasher name m = preferences_from m 0 m (offset hasher name m) (skip hasher name m)
