-- ===== src/Hashing/Table.antt =====
-- crates/lb-hashing/src/lookup_table.rs: `LookupTable::build` and its readers.
use lb.Prelude.{
  ℕ, zero, suc, ◌+◌, ◌-◌, ◌%◌, ◌^◌, true, false, List, [], ◌∷◌, map, Option, none, some, ltb, ◌==◌,
  if◌then◌else◌, length, get_or, get_elem?, set, replicate,
}
use lb.Types.Net.{Bytes, IpAddr}
use lb.Types.Backend.{Backend, name}
use lb.Hashing.Permutation.{Hasher, usize, offset, skip, preference}

-- `usize::MAX` marks a free slot.
abbrev pub usize_max : ℕ
usize_max = 2 ^ 64 - 1

pub record LookupTable : Type 0 where
  pub entries : List ℕ
  pub backends : List Backend
  pub table_size : ℕ

-- `backends.iter().filter(|b| b.weight > 0)`.
unfoldable pub active : List Backend → List Backend
active [] = []
active (b ∷ bs) = if ltb 0 b.weight then b ∷ active bs else active bs

-- A backend's weight beside its pair of `params`.
pub record Claimant : Type 0 where
  pub weight : ℕ
  pub o : ℕ
  pub s : ℕ

unfoldable pub claimant : Hasher → (IpAddr → Bytes) → ℕ → Backend → Claimant
claimant hasher display m b = record {
  weight = b.weight;
  o = offset hasher (name display b) m;
  s = skip hasher (name display b) m;
}

-- The variables of the fill loop.
pub record Filling : Type 0 where
  pub entries : List ℕ
  pub next : List ℕ
  pub filled : ℕ

-- How a part of the loop ends: it goes on, it breaks out, or its fuel is spent.
pub data Pass : Type 0 where
  going : Filling → Pass
  finished : Filling → Pass
  stuck : Pass

-- `while entries[c] != usize::MAX { next[i] += 1; … }`: the value of `next[i]` after it.
unfoldable pub seek : ℕ → ℕ → List ℕ → ℕ → ℕ → ℕ → Option ℕ
seek zero m entries o s n = none
seek (suc f) m entries o s n =
    let rest = seek f m entries o s (usize (n + 1)) in
    if get_or entries (preference m o s n) 0 == usize_max then some n else rest

-- The slot is taken: `entries[c] = i; next[i] += 1; filled += 1`.
unfoldable pub take_slot : ℕ → ℕ → Claimant → Filling → ℕ → Filling
take_slot m i p st n = record {
  entries = set st.entries (preference m p.o p.s n) i;
  next = set st.next i (usize (n + 1));
  filled = usize (st.filled + 1);
}

-- `for _ in 0..chances`.
unfoldable pub chances_loop : ℕ → ℕ → ℕ → ℕ → Claimant → Filling → Pass
chances_loop fuel zero m i p st = going st
chances_loop fuel (suc chances) m i p st =
    elim (seek fuel m st.entries p.o p.s (get_or st.next i 0)) [
      | none ↦ stuck
      | some n ↦ elim ((take_slot m i p st n).filled == m) [
        | true ↦ finished (take_slot m i p st n)
        | false ↦ chances_loop fuel chances m i p (take_slot m i p st n)
      ]
    ]

-- `for i in 0..n`.
unfoldable pub pass_loop : ℕ → ℕ → ℕ → List Claimant → Filling → Pass
pass_loop fuel m i [] st = going st
pass_loop fuel m i (p ∷ ps) st = elim (chances_loop fuel p.weight m i p st) [
  | going st' ↦ pass_loop fuel m (i + 1) ps st'
  | finished st' ↦ finished st'
  | stuck ↦ stuck
]

-- `'outer: loop`; the first number bounds the passes, the second each search.
unfoldable pub outer_loop : ℕ → ℕ → ℕ → List Claimant → Filling → Pass
outer_loop zero fuel m ps st = stuck
outer_loop (suc passes) fuel m ps st = elim (pass_loop fuel m 0 ps st) [
  | going st' ↦ outer_loop passes fuel m ps st'
  | finished st' ↦ finished st'
  | stuck ↦ stuck
]

-- What `build` does: a table, its `Err`, a panic on `% 0`, or a loop that never ends.
pub data Outcome : Type 0 where
  built : LookupTable → Outcome
  no_backends : Outcome
  panics : Outcome
  spins : Outcome

unfoldable pub outcome : ℕ → List Backend → Pass → Outcome
outcome m bs (going st) = spins
outcome m bs (finished st) = built (record { entries = st.entries; backends = bs; table_size = m })
outcome m bs stuck = spins

unfoldable pub start : ℕ → ℕ → Filling
start m n = record { entries = replicate m usize_max; next = replicate n 0; filled = 0 }

-- At most `m` passes are needed, and `m` steps for each search. `offset` divides by `m`, and
-- `skip` by `m - 1`.
unfoldable pub build_active : Hasher → (IpAddr → Bytes) → List Backend → ℕ → Outcome
unfolding outcome
build_active hasher display [] m = no_backends
build_active hasher display (b ∷ bs) m =
    if ltb m 2
    then panics
    else outcome m (b ∷ bs)
        (outer_loop m m m (map (claimant hasher display m) (b ∷ bs)) (start m (length (b ∷ bs))))

unfoldable pub build : Hasher → (IpAddr → Bytes) → List Backend → ℕ → Outcome
build hasher display backends m = build_active hasher display (active backends) m

-- `lookup`; `none` stands for an index out of bounds.
unfoldable pub lookup : LookupTable → ℕ → Option Backend
lookup t hash = elim (get_elem? t.entries (hash % t.table_size)) [
  | none ↦ none
  | some i ↦ get_elem? t.backends i
]

unfoldable pub num_backends : LookupTable → ℕ
num_backends t = length t.backends
