-- ===== src/Forwarder/Threading/Affinity.antt =====
-- `resolve_cpu_affinity` of threading.rs, and `CpuAffinity` of lib.rs. The cores that the operating
-- system exposes are an argument, as their ids.
use lb.Prelude.{
  List, Option, [], ◌∷◌, ℕ, zero, suc, none, some, if◌then◌else◌, ◌==◌, length, ◌≡◌, refl, ◌+◌,
  arith, ap, ==_iff,
}
use lb.Prelude.Checked.{Checked, value, panic, ◌>>=◌, index, index-value, if-holds}
use native.Mathlib.Nat.{mod-lt}
use lb.Prelude.{◌%◌, ◌≢◌, ◌⊎◌, inl, inr, get_or}

pub record CpuAffinity : Type 0 where
  pub steering : List ℕ
  pub rewriters : List ℕ
  pub muxer : List ℕ

pub record ResolvedAffinity : Type 0 where
  pub steering : Option ℕ
  pub rewriters : List (Option ℕ)
  pub muxer : Option ℕ

-- `iter().find(|c| c.id == id)`.
unfoldable pub find : List ℕ → ℕ → Option ℕ
find [] id = none
find (c ∷ cores) id = if c == id then some c else find cores id

unfoldable pub pick_first : List ℕ → List ℕ → Option ℕ
pick_first cores [] = none
pick_first cores (id ∷ ids) = elim (find cores id) [ none ↦ pick_first cores ids | some c ↦ some c ]

unfoldable pub rewriter_core : List ℕ → List ℕ → ℕ → Checked (Option ℕ)
rewriter_core cores [] i = value none
rewriter_core cores (id ∷ ids) i =
    index (id ∷ ids) (i % length (id ∷ ids)) >>= (λ x. value (find cores x))

-- `(i..i + n).map(..).collect()`.
unfoldable pub rewriter_cores : List ℕ → List ℕ → ℕ → ℕ → Checked (List (Option ℕ))
rewriter_cores cores ids zero i = value []
rewriter_cores cores ids (suc n) i =
    rewriter_core cores ids i
    >>= (λ c. rewriter_cores cores ids n (i + 1) >>= (λ cs. value (c ∷ cs)))

unfoldable pub resolve_cpu_affinity : List ℕ → CpuAffinity → ℕ → Checked ResolvedAffinity
resolve_cpu_affinity cores req num_rewriters =
    rewriter_cores cores req.rewriters num_rewriters 0 >>= (λ rewriters. value (record {
      steering = pick_first cores req.steering;
      rewriters = rewriters;
      muxer = pick_first cores req.muxer;
    }))

-- An id is in the list.
unfoldable pub Among : ℕ → List ℕ → Type 0
Among id [] = ⊥
Among id (x ∷ xs) = (x ≡ id) ⊎ Among id xs

-- The core with that id, or none exactly if it is not exposed.
abbrev pub Pinned : List ℕ → ℕ → Option ℕ → Type 0
Pinned cores id o = (Among id cores × (o ≡ some id)) ⊎ ((¬ Among id cores) × (o ≡ none))

-- The first one of the list that is exposed, or none exactly if no one is.
unfoldable pub FirstOf : List ℕ → List ℕ → Option ℕ → Type 0
FirstOf cores [] o = o ≡ none
FirstOf cores (id ∷ ids) o =
    (Among id cores × (o ≡ some id)) ⊎ ((¬ Among id cores) × FirstOf cores ids o)

-- What the rewriter of that number gets: the ids are dealt out in turn.
abbrev pub Dealt : List ℕ → List ℕ → ℕ → Option ℕ → Type 0
Dealt cores [] i o = o ≡ none
Dealt cores (id ∷ ids) i o = Pinned cores (get_or (id ∷ ids) (i % length (id ∷ ids)) 0) o

-- The rewriters from that number on.
abbrev pub AllDealt : List ℕ → List ℕ → ℕ → List (Option ℕ) → Type 0
AllDealt cores ids i [] = Unit
AllDealt cores ids i (o ∷ os) = Dealt cores ids i o × AllDealt cores ids (i + 1) os

Pinned-more :
    (core : ℕ) (cores : List ℕ) (id : ℕ) (o : Option ℕ)
    → core ≢ id
    → Pinned cores id o
    → Pinned (core ∷ cores) id o
unfolding Among
Pinned-more core cores id o ne (inl (h, e)) = inl (inr h, e)
Pinned-more core cores id o ne (inr (h, e)) = inr (λ m. elim m [ inl s ↦ ne s | inr k ↦ h k ], e)

find-Pinned : (cores : List ℕ) (id : ℕ) → Pinned cores id (find cores id)
unfolding find Among
find-Pinned [] id = inr (λ m. m, refl)
find-Pinned (c ∷ cores) id =
    let (to, from) = ==_iff c id in
    if-holds (Pinned (c ∷ cores) id) (c == id) (some c) (find cores id)
      (λ e. inl (inl (to e), ap some (to e)))
      (λ e.
        Pinned-more c cores id (find cores id) (λ s. let f = from s in cc (e, f))
          (find-Pinned cores id))

pick_first-FirstOf : (cores ids : List ℕ) → FirstOf cores ids (pick_first cores ids)
unfolding pick_first FirstOf
pick_first-FirstOf cores [] = refl
pick_first-FirstOf cores (id ∷ ids) =
    let rest = pick_first-FirstOf cores ids in
    elim (find-Pinned cores id) [
      | inl (h, e) ↦ inl (h, rw (e, pick_first) refl)
      | inr (h, e) ↦ inr (h, rw (e, pick_first) rest)
    ]

-- The cores of the rewriters, as many as there are.
abbrev pub Pins : List ℕ → List ℕ → ℕ → ℕ → Checked (List (Option ℕ)) → Type 0
Pins cores ids n i panic = ⊥
Pins cores ids n i (value os) = (length os ≡ n) × AllDealt cores ids i os

rewriter_core-Dealt :
    (cores ids : List ℕ) (i : ℕ)
    → (o : Option ℕ) × (rewriter_core cores ids i ≡ value o) × Dealt cores ids i o
unfolding rewriter_core
rewriter_core-Dealt cores [] i = (none, refl, refl)
rewriter_core-Dealt cores (id ∷ ids) i =
    let x = get_or (id ∷ ids) (i % length (id ∷ ids)) 0 in
    (
      find cores x,
      rw (index-value (id ∷ ids) (i % length (id ∷ ids)) (mod-lt i (omega arith))) refl,
      find-Pinned cores x,
    )

rewriter_cores-Pins :
    (cores ids : List ℕ) (n i : ℕ) → Pins cores ids n i (rewriter_cores cores ids n i)
unfolding rewriter_cores
rewriter_cores-Pins cores ids zero i = (refl, tt)
rewriter_cores-Pins cores ids (suc n) i =
    let (o, e, h) = rewriter_core-Dealt cores ids i in
    rw e (onto o h (rewriter_cores cores ids n (i + 1)) (rewriter_cores-Pins cores ids n (i + 1)))
  where
    onto :
        (o : Option ℕ)
        → Dealt cores ids i o
        → (c : Checked (List (Option ℕ))) → Pins cores ids n (i + 1) c
        → Pins cores ids (suc n) i (c >>= (λ os. value (o ∷ os)))
    onto o h panic k = k
    onto o h (value os) (a, b) = (ap suc a, (h, b))

-- No panic, and what a resolved affinity owes to a request.
abbrev pub Resolves : List ℕ → CpuAffinity → ℕ → Checked ResolvedAffinity → Type 0
Resolves cores req n panic = ⊥
Resolves cores req n (value r) =
    FirstOf cores req.steering r.steering
    × Pins cores req.rewriters n 0 (value r.rewriters)
    × FirstOf cores req.muxer r.muxer

-- For any lists of core ids, empty ones too, and any number of rewriters: `resolve_cpu_affinity` does
-- not panic. The steering thread and the muxer are each pinned to the first core of their list that
-- the operating system exposes, and to none exactly if it exposes none of them. There is one entry
-- for each rewriter; the ids for them are dealt out in turn, from the first again after the last,
-- and a rewriter is pinned to the core with the id it is dealt, or to none exactly if that core is
-- not exposed or the list is empty.
pub resolve_cpu_affinity-Resolves :
    (cores : List ℕ) (req : CpuAffinity) (num_rewriters : ℕ)
    → Resolves cores req num_rewriters (resolve_cpu_affinity cores req num_rewriters)
unfolding resolve_cpu_affinity
resolve_cpu_affinity-Resolves cores req n =
    whole (rewriter_cores cores req.rewriters n 0) (rewriter_cores-Pins cores req.rewriters n 0)
  where
    whole :
        (c : Checked (List (Option ℕ)))
        → Pins cores req.rewriters n 0 c
        → Resolves cores req n (
            c >>= (λ rewriters. value (record {
              steering = pick_first cores req.steering;
              rewriters = rewriters;
              muxer = pick_first cores req.muxer;
            })))
    whole panic h = h
    whole (value os) h =
        (pick_first-FirstOf cores req.steering, h, pick_first-FirstOf cores req.muxer)
