-- ===== src/Forwarder/ConnTable/Find.antt =====
-- The walk of `get`, `touch` and the two `mark_…`: it finds an entry exactly if the table holds
-- one with the hash.
use native.Mathlib.Nat.{mod-lt, mod-eq_of_lt}
use lb.Types.Net.{IpAddr}
use lb.Prelude.{
  Option, arith, if◌then◌else◌, none, refl, some, suc, true, zero, ℕ, ◌%◌, ◌+◌, ◌<◌, ◌^◌, ◌≡◌, ◌≤◌,
  ap, false, sym, ℕ_discrete, ◌-◌, ◌∙◌, ◌≢◌,
}
use lb.Prelude.Bits.{pow_pos}
use lb.Forwarder.Ring.{distance, advance, home, next-lt, probe_distance}
use lb.Forwarder.RobinHood.{way, distance-lt, at-next, at-distance}
use lb.Forwarder.ConnTable.Defs.{
  ConnEntry, ConnTable, entry_at, find_loop, get_loop, get, capacity, is_expired,
}
use lb.Forwarder.ConnTable.Shape.{
  IsTable, Holds, layout, layout-occupied, layout-some, advance-eq, home-eq, probe_distance-eq,
  capacity-pow,
}

-- What `get` makes of the slot that the walk finds.
unfoldable pub read_slot : ConnTable → ℕ → Option ℕ → Option IpAddr
read_slot t now none = none
read_slot t now (some i) =
    if is_expired t.ttls (entry_at t.entries i) now
    then none
    else some (entry_at t.entries i).backend_ip

get_loop-find_loop :
    (n : ℕ) (t : ConnTable) (hash now idx dist : ℕ)
    → get_loop n t hash now idx dist ≡ read_slot t now (find_loop n t hash idx dist)
unfolding get_loop find_loop read_slot
get_loop-find_loop zero t hash now idx dist = refl
get_loop-find_loop (suc n) t hash now idx dist =
    ground (arith, get_loop-find_loop n t hash now (advance t.mask idx) (dist + 1))

read_slot-eq-some :
    (t : ConnTable) (now : ℕ) (o : Option ℕ) (ip : IpAddr)
    → read_slot t now o ≡ some ip
    → (i : ℕ) × (o ≡ some i)
      × (is_expired t.ttls (entry_at t.entries i) now ≡ false)
      × ((entry_at t.entries i).backend_ip ≡ ip)
unfolding read_slot
read_slot-eq-some t now none ip e = cc
read_slot-eq-some t now (some i) ip e = (i, refl, ground arith, ground arith)

module _ (k : ℕ) (t : ConnTable) (v : IsTable k t) (hash : ℕ) where
  at_same :
      (j : ℕ)
      → j < 2 ^ k
      → layout t.entries j ≡ some hash
      → (idx g : ℕ) → layout t.entries idx ≡ some g
      → idx ≡ (hash % 2 ^ k + distance (2 ^ k) hash j) % 2 ^ k
      → g ≡ hash
  at_same j b e idx g here at =
      let same : idx ≡ j = at ∙ sym (at-distance (2 ^ k) (pow_pos k) hash j b) in
      let f : some g ≡ some hash = sym here ∙ (rw same e) in cc

  -- The walk finds the slot that holds the hash.
  find_loop_complete :
      (n idx dist j : ℕ)
      → dist + n ≡ 2 ^ k
      → idx ≡ (hash % 2 ^ k + dist) % 2 ^ k
      → j < 2 ^ k
      → layout t.entries j ≡ some hash
      → dist ≤ distance (2 ^ k) hash j
      → find_loop n t hash idx dist ≡ some j
  unfolding find_loop
  find_loop_complete zero idx dist j s at b e near =
      absurd (omega (arith, distance-lt (2 ^ k) (pow_pos k) hash j b))
  find_loop_complete (suc n) idx dist j s at b e near =
      let pos = pow_pos k in
      let inside : idx < 2 ^ k = rw at (mod-lt _ pos) in
      let (g, here, far) =
        way (2 ^ k) pos (layout t.entries) hash j v.robin_hood b e (distance (2 ^ k) hash j - dist)
          dist idx (omega arith) at in
      let (taken, g-is) = layout-some t.entries idx g here in
      let no_less : dist ≤ probe_distance t.mask (entry_at t.entries idx).hash idx =
        rw (probe_distance-eq k t v (entry_at t.entries idx).hash idx inside, g-is) far in
      elim (ℕ_discrete g hash) [
        | yes found ↦
            let same : idx ≡ j = v.distinct.same idx j hash inside b (rw found at here) e in
            ground arith
        | no other ↦
            let further : dist ≢ distance (2 ^ k) hash j = λ last.
              other
                (at_same j b e idx g here (at ∙ ap (λ (d : ℕ). (hash % 2 ^ k + d) % 2 ^ k) last)) in
            let rest =
              find_loop_complete n (advance t.mask idx) (dist + 1) j (omega arith)
                (advance-eq k t v idx ∙ at-next (2 ^ k) pos hash idx dist at) b e (omega arith) in
            ground arith
      ]

  find_loop_sound :
      (n idx dist i : ℕ)
      → idx < 2 ^ k
      → find_loop n t hash idx dist ≡ some i
      → (i < 2 ^ k)
        × ((entry_at t.entries i).occupied ≡ true)
        × ((entry_at t.entries i).hash ≡ hash)
  unfolding find_loop
  find_loop_sound zero idx dist i b e = cc
  find_loop_sound (suc n) idx dist i b e =
      let on : advance t.mask idx < 2 ^ k =
        rw (advance-eq k t v idx) (next-lt (2 ^ k) (pow_pos k) idx) in
      ground (arith, find_loop_sound n (advance t.mask idx) (dist + 1) i on)

  -- The walk from the first slot of the hash.
  unfoldable pub find : Option ℕ
  find = find_loop (capacity t) t hash (home t.mask hash) 0

  start-at : home t.mask hash ≡ (hash % 2 ^ k + 0) % 2 ^ k
  start-at =
      let z : hash % 2 ^ k + 0 ≡ hash % 2 ^ k = omega arith in
      rw z (home-eq k t v hash ∙ sym (mod-eq_of_lt (mod-lt hash (pow_pos k))))

  pub find_complete : (x : ConnEntry) (h : Holds k t.entries x) → x.hash ≡ hash → find ≡ some h.slot
  unfolding find
  find_complete x h e =
      let occ : (entry_at t.entries h.slot).occupied ≡ true = rw h.entry_is h.occupied in
      let here : layout t.entries h.slot ≡ some hash =
        layout-occupied t.entries h.slot occ
        ∙ ap some (ap (λ (y : ConnEntry). y.hash) h.entry_is ∙ e) in
      find_loop_complete (capacity t) (home t.mask hash) 0 h.slot
        (omega (arith, capacity-pow k t v)) start-at h.inside here (omega arith)

  pub find_sound :
      (i : ℕ)
      → find ≡ some i
      → (i < 2 ^ k)
        × ((entry_at t.entries i).occupied ≡ true)
        × ((entry_at t.entries i).hash ≡ hash)
  unfolding find
  find_sound i e =
      find_loop_sound (capacity t) (home t.mask hash) 0 i
        (rw (home-eq k t v hash) (mod-lt hash (pow_pos k))) e

  get-find : (now : ℕ) → get t hash now ≡ read_slot t now find
  unfolding get find
  get-find now = get_loop-find_loop (capacity t) t hash now (home t.mask hash) 0

  -- In a table of this shape `get` returns the backend of an entry that the table holds for the
  -- hash and that has not expired.
  pub get-Holds :
      (x : ConnEntry) (now : ℕ)
      → Holds k t.entries x
      → x.hash ≡ hash
      → is_expired t.ttls x now ≡ false
      → get t hash now ≡ some x.backend_ip
  unfolding read_slot
  get-Holds x now h e alive =
      get-find now ∙ (rw (find_complete x h e, read_slot) (rw (h.entry_is) (rw alive)))

  -- What `get` returns is the backend of such an entry.
  pub get-eq-some :
      (now : ℕ) (ip : IpAddr)
      → get t hash now ≡ some ip
      → (x : ConnEntry) × Holds k t.entries x
        × (x.hash ≡ hash)
        × (x.backend_ip ≡ ip)
        × (is_expired t.ttls x now ≡ false)
  get-eq-some now ip e =
      let (i, found, alive, ip-is) = read_slot-eq-some t now find ip (sym (get-find now) ∙ e) in
      let (b, occ, hash-is) = find_sound i found in
      (
        entry_at t.entries i,
        record { slot = i; inside = b; entry_is = refl; occupied = occ },
        hash-is,
        ip-is,
        alive,
      )
