-- ===== src/Forwarder/ConnTable/Loop.antt =====
-- The loop of `insert`, round by round.
use mathlib.Core.Path.{fun_ext}
use native.Mathlib.Nat.{mod-lt}
use lb.Prelude.{
  ap, arith, set, some, sym, true, ℕ, ◌<◌, ◌^◌, ◌∙◌, ◌≡◌, ◌≢◌, refl, false, ◌+◌, ◌≤◌, ==_iff,
  Bool-cases, inl, inr, ltb, ltb→lt, suc, zero, ◌==◌,
}
use lb.Prelude.Bits.{pow_pos}
use lb.Forwarder.Ring.{distance, probe_distance, advance}
use lb.Forwarder.RobinHood.{
  Probe, go_on, put-IsDistinct, put-IsRobinHood, put-Probe, put-eq, put, put-gone,
}
use lb.Forwarder.ConnTable.Defs.{
  ConnEntry, ConnTable, InsertResult, inserted, updated, entry_at, write, refresh, is_expired,
  insert_loop,
}
use lb.Forwarder.ConnTable.Shape.{
  IsTable, IsFresh, layout, layout-occupied, layout-vacant, advance-eq, probe_distance-eq,
  write-IsTable, none-ne-some, layout-set,
}
use lb.Forwarder.ConnTable.Insert.{Inserts, put-Inserts, full-Inserts, alive_write, rob-Inserts}

-- One round of the loop at a slot that the probe has come to.
module _ (k now : ℕ) (t : ConnTable) (cur : ConnEntry) (idx dist : ℕ) (v : IsTable k t)
    (f : IsFresh k t now) (o : cur.occupied ≡ true) (alive : is_expired t.ttls cur now ≡ false)
    (p : Probe (2 ^ k) (layout t.entries) cur.hash idx dist) (short : dist < 2 ^ k) where
  pos : 0 < 2 ^ k
  pos = pow_pos k

  inside : idx < 2 ^ k
  inside = rw p.at (mod-lt _ pos)

  free-Inserts :
      (entry_at t.entries idx).occupied ≡ false
      → Inserts k t cur (record t { entries = set t.entries idx cur; size = t.size + 1 }, inserted)
  free-Inserts free =
      let vacant_here = layout-vacant t.entries idx free in
      let poor : (g : ℕ) → layout t.entries idx ≡ some g → distance (2 ^ k) g idx < dist =
        λ g e. absurd (none-ne-some g (sym vacant_here ∙ e)) in
      let shape =
        write-IsTable k t v idx cur inside o
          (put-IsRobinHood (2 ^ k) pos (layout t.entries) v.robin_hood v.distinct cur.hash idx dist
            p short poor)
          (put-IsDistinct (2 ^ k) pos (layout t.entries) v.robin_hood v.distinct cur.hash idx dist p
            short poor)
          (t.size + 1) in
      put-Inserts k t v idx (t.size + 1) cur cur inserted inside o shape refl refl refl
        (λ away. refl) (λ g e. absurd (none-ne-some g (sym vacant_here ∙ e)))

  same-Inserts :
      (entry_at t.entries idx).occupied ≡ true
      → (entry_at t.entries idx).hash ≡ cur.hash
      → Inserts k t cur (write t idx (refresh (entry_at t.entries idx) cur), updated)
  unfolding refresh
  same-Inserts occ same =
      let e = entry_at t.entries idx in
      let here : layout t.entries idx ≡ some e.hash = layout-occupied t.entries idx occ in
      let again = put-eq (layout t.entries) idx e.hash here in
      let shape =
        write-IsTable k t v idx (refresh e cur) inside occ (rw again v.robin_hood)
          (rw again v.distinct) t.size in
      put-Inserts k t v idx t.size (refresh e cur) cur updated inside occ shape same refl refl
        (λ away. absurd (away idx inside (here ∙ ap some same)))
        (λ g h. let k' : some g ≡ some e.hash = sym h ∙ here in cc)

  module _ (occ : (entry_at t.entries idx).occupied ≡ true)
      (differ : (entry_at t.entries idx).hash ≢ cur.hash) where
    here : layout t.entries idx ≡ some (entry_at t.entries idx).hash
    here = layout-occupied t.entries idx occ

    module _ (near : probe_distance t.mask (entry_at t.entries idx).hash idx < dist) where
      poor : (g : ℕ) → layout t.entries idx ≡ some g → distance (2 ^ k) g idx < dist
      poor g e =
          let g-is : some g ≡ some (entry_at t.entries idx).hash = sym e ∙ here in
          let same : g ≡ (entry_at t.entries idx).hash = cc in
          rw same (rw (probe_distance-eq k t v (entry_at t.entries idx).hash idx inside) at near)

      put-layout : layout (set t.entries idx cur) ≡ put (layout t.entries) idx cur.hash
      put-layout = fun_ext (λ j. layout-set t.entries idx j cur (omega (arith, v.slots)) o)

      robbed-IsTable : IsTable k (write t idx cur)
      robbed-IsTable =
          write-IsTable k t v idx cur inside o
            (put-IsRobinHood (2 ^ k) pos (layout t.entries) v.robin_hood v.distinct cur.hash idx
              dist p short poor)
            (put-IsDistinct (2 ^ k) pos (layout t.entries) v.robin_hood v.distinct cur.hash idx dist
              p short poor)
            t.size

      robbed-Probe :
          Probe
            (2 ^ k)
            (layout (set t.entries idx cur))
            (entry_at t.entries idx).hash
            (advance t.mask idx)
            (probe_distance t.mask (entry_at t.entries idx).hash idx + 1)
      robbed-Probe =
          rw
            (
              put-layout,
              advance-eq k t v idx,
              probe_distance-eq k t v (entry_at t.entries idx).hash idx inside,
            )
            (put-Probe (2 ^ k) pos (layout t.entries) v.robin_hood v.distinct cur.hash idx dist p
              short poor (entry_at t.entries idx).hash here differ)

      rob-step :
          (r : ConnTable × InsertResult)
          → Inserts k (write t idx cur) (entry_at t.entries idx) r
          → Inserts k t cur r
      rob-step r rest =
          rob-Inserts k t v idx (entry_at t.entries idx) cur r inside o refl occ differ
            (λ j c. rw put-layout (
              put-gone (2 ^ k) pos (layout t.entries) v.robin_hood v.distinct cur.hash idx dist p
                short poor (entry_at t.entries idx).hash here differ j c))
            rest

    pass-Probe :
        dist ≤ probe_distance t.mask (entry_at t.entries idx).hash idx
        → Probe (2 ^ k) (layout t.entries) cur.hash (advance t.mask idx) (dist + 1)
    pass-Probe far = rw (advance-eq k t v idx) (
        go_on (2 ^ k) pos (layout t.entries) v.robin_hood v.distinct cur.hash idx dist
          (entry_at t.entries idx).hash p short here differ
          (rw (probe_distance-eq k t v (entry_at t.entries idx).hash idx inside) at far))

module _ (k now : ℕ) where
  pub insert_loop-Inserts :
      (n : ℕ) (t : ConnTable) (cur : ConnEntry) (idx dist : ℕ)
      → IsTable k t
      → IsFresh k t now
      → cur.occupied ≡ true
      → is_expired t.ttls cur now ≡ false
      → Probe (2 ^ k) (layout t.entries) cur.hash idx dist
      → dist + n ≤ 2 ^ k
      → Inserts k t cur (insert_loop n t now cur idx dist)
  unfolding insert_loop
  insert_loop-Inserts zero t cur idx dist v f o alive p h = full-Inserts k t cur v
  insert_loop-Inserts (suc n) t cur idx dist v f o alive p h =
      let short : dist < 2 ^ k = omega arith in
      let in' : idx < 2 ^ k = rw p.at (mod-lt _ (pow_pos k)) in
      elim (Bool-cases (entry_at t.entries idx).occupied) [
        | inr free ↦ rw free (free-Inserts k now t cur idx dist v f o alive p short free)
        | inl occ ↦
            let old = f.fresh idx in' occ in
            elim (Bool-cases ((entry_at t.entries idx).hash == cur.hash)) [
              | inl same ↦
                  rw (occ, old, same)
                    (same-Inserts k now t cur idx dist v f o alive p short occ
                      ((==_iff _ _).0 same))
              | inr other ↦
                  let differ : (entry_at t.entries idx).hash ≢ cur.hash = ground arith in
                  elim (Bool-cases
                    (ltb (probe_distance t.mask (entry_at t.entries idx).hash idx) dist)) [
                      | inl near ↦
                          let close : probe_distance t.mask (entry_at t.entries idx).hash idx
                              < dist =
                            ltb→lt _ _ near in
                          let v' =
                            robbed-IsTable k now t cur idx dist v f o alive p short occ differ
                              close in
                          let p' =
                            robbed-Probe k now t cur idx dist v f o alive p short occ differ
                              close in
                          let f' = alive_write k t now idx cur v.slots in' f alive in
                          rw (occ, old, other, near)
                            (rob-step k now t cur idx dist v f o alive p short occ differ close _ (
                              insert_loop-Inserts n (write t idx cur) (entry_at t.entries idx)
                                (advance t.mask idx)
                                (probe_distance t.mask (entry_at t.entries idx).hash idx + 1) v' f'
                                occ old p' (omega arith)))
                      | inr far ↦
                          let p' =
                            pass-Probe k now t cur idx dist v f o alive p short occ differ
                              (ground arith) in
                          rw (occ, old, other, far)
                            (insert_loop-Inserts n t cur (advance t.mask idx) (dist + 1) v f o alive
                              p' (omega arith))
                    ]
            ]
      ]
