-- ===== src/Forwarder/ConnTable/Shape.antt =====
-- The invariant of the connection table: a power of two of slots, laid out by Robin Hood, with no
-- hash twice.
use mathlib.Core.Path.{fun_ext}
use lb.Types.Ttls.{ConnTtls}
use lb.Prelude.{
  ==_iff, List, arith, false, if◌then◌else◌, length, length-replicate, length-set, none, refl,
  replicate, set, some, suc, sym, true, zero, ℕ, ℕ_discrete, ◌%◌, ◌-◌, ◌<◌, ◌==◌, ◌^◌, ◌∙◌, ◌≡◌,
  ◌≤◌, ◌≢◌,
}
use lb.Prelude.Bits.{pow_pos}
use lb.Forwarder.Ring.{
  home, advance, probe_distance, next, distance, home-mod, advance-next, probe_distance-distance,
}
use lb.Forwarder.RobinHood.{Layout, put, IsRobinHood, IsDistinct}
use lb.Forwarder.ConnTable.Defs.{ConnEntry, ConnTable, new, vacant, entry_at, capacity, is_expired}
use lb.Hashing.Slots.{get_or-set_self, get_or-set_ne}

unfoldable pub layout : List ConnEntry → Layout
layout entries i = if (entry_at entries i).occupied then some (entry_at entries i).hash else none

pub record IsTable (k : ℕ) (t : ConnTable) : Type 0 where
  pub bits : k ≤ 64
  pub mask_is : t.mask ≡ 2 ^ k - 1
  pub slots : length t.entries ≡ 2 ^ k
  pub robin_hood : IsRobinHood (2 ^ k) (layout t.entries)
  pub distinct : IsDistinct (2 ^ k) (layout t.entries)

-- No entry has outlived its time at `now`.
pub record IsFresh (k : ℕ) (t : ConnTable) (now : ℕ) : Type 0 where
  pub fresh :
      (i : ℕ)
      → i < 2 ^ k
      → (entry_at t.entries i).occupied ≡ true
      → is_expired t.ttls (entry_at t.entries i) now ≡ false

-- One of the slots holds this entry.
pub record Holds (k : ℕ) (entries : List ConnEntry) (x : ConnEntry) : Type 0 where
  pub slot : ℕ
  pub inside : slot < 2 ^ k
  pub entry_is : entry_at entries slot ≡ x
  pub occupied : x.occupied ≡ true

pub layout-occupied :
    (entries : List ConnEntry) (i : ℕ)
    → (entry_at entries i).occupied ≡ true
    → layout entries i ≡ some (entry_at entries i).hash
unfolding layout
layout-occupied entries i e = rw e

pub layout-some :
    (entries : List ConnEntry) (i hash : ℕ)
    → layout entries i ≡ some hash
    → ((entry_at entries i).occupied ≡ true) × ((entry_at entries i).hash ≡ hash)
unfolding layout
layout-some entries i hash e = ground arith

pub layout-vacant :
    (entries : List ConnEntry) (i : ℕ)
    → (entry_at entries i).occupied ≡ false
    → layout entries i ≡ none
unfolding layout
layout-vacant entries i e = rw e

-- Writing an entry puts its hash into the layout.
pub layout-set :
    (entries : List ConnEntry) (i j : ℕ) (e : ConnEntry)
    → i < length entries
    → e.occupied ≡ true
    → layout (set entries i e) j ≡ put (layout entries) i e.hash j
unfolding layout put
layout-set entries i j e h o = elim (ℕ_discrete i j) [
  | yes same ↦ rw (← same) (rw (get_or-set_self entries i e (vacant 0) h, o, (==_iff i i).1 refl))
  | no other ↦
      let differ : (i == j) ≡ false = ground arith in
      rw (get_or-set_ne entries i j e (vacant 0) other, differ)
]

module _ (k : ℕ) (t : ConnTable) (v : IsTable k t) where
  pub capacity-pow : capacity t ≡ 2 ^ k
  unfolding capacity
  capacity-pow = let pos = pow_pos k in omega (arith, v.mask_is)

  pub home-eq : (hash : ℕ) → home t.mask hash ≡ hash % 2 ^ k
  home-eq hash = rw v.mask_is (home-mod k hash)

  pub advance-eq : (i : ℕ) → advance t.mask i ≡ next (2 ^ k) i
  advance-eq i = rw v.mask_is (advance-next k i)

  pub probe_distance-eq :
      (hash i : ℕ) → i < 2 ^ k → probe_distance t.mask hash i ≡ distance (2 ^ k) hash i
  probe_distance-eq hash i b = rw v.mask_is (probe_distance-distance k hash i v.bits b)

  -- Writing over a slot keeps all that does not speak of the layout.
  pub write-IsTable :
      (i : ℕ) (e : ConnEntry)
      → i < 2 ^ k
      → e.occupied ≡ true
      → IsRobinHood (2 ^ k) (put (layout t.entries) i e.hash)
      → IsDistinct (2 ^ k) (put (layout t.entries) i e.hash)
      → (size : ℕ) → IsTable k (record t { entries = set t.entries i e; size = size })
  write-IsTable i e b o r u size =
      let same : layout (set t.entries i e) ≡ put (layout t.entries) i e.hash =
        fun_ext (λ j. layout-set t.entries i j e (omega (arith, v.slots)) o) in
      record {
        bits = v.bits;
        mask_is = v.mask_is;
        slots = length-set t.entries i e ∙ v.slots;
        robin_hood = rw same r;
        distinct = rw same u;
      }

pub none-ne-some : (hash : ℕ) → none ≢ some hash
none-ne-some hash e = cc

vacant_everywhere : (n i init_time : ℕ) → layout (replicate n (vacant init_time)) i ≡ none
unfolding layout
vacant_everywhere zero i init_time = refl
vacant_everywhere (suc n) zero init_time = refl
vacant_everywhere (suc n) (suc i) init_time = vacant_everywhere n i init_time

-- A new table has the shape: it is empty.
pub new-IsTable :
    (k : ℕ) (ttls : ConnTtls) (init_time : ℕ) → k ≤ 64 → IsTable k (new k ttls init_time)
unfolding new
new-IsTable k ttls init_time h =
    let empty : (i : ℕ) → layout (replicate (2 ^ k) (vacant init_time)) i ≡ none =
      λ i. vacant_everywhere (2 ^ k) i init_time in
    record {
      bits = h;
      mask_is = refl;
      slots = length-replicate (2 ^ k) (vacant init_time);
      robin_hood = record {
        before = λ i hash b e far. absurd (none-ne-some hash (sym (empty (next (2 ^ k) i)) ∙ e));
      };
      distinct = record {
        same = λ i j hash b c e f. absurd (none-ne-some hash (sym (empty i) ∙ e));
      };
    }

-- Nothing can have expired in an empty table.
pub new-IsFresh :
    (k : ℕ) (ttls : ConnTtls) (init_time now : ℕ) → IsFresh k (new k ttls init_time) now
unfolding new
new-IsFresh k ttls init_time now = record {
  fresh = λ i h occupied. absurd (
      none-ne-some _ (
        sym (vacant_everywhere (2 ^ k) i init_time)
        ∙ layout-occupied (replicate (2 ^ k) (vacant init_time)) i occupied));
}
