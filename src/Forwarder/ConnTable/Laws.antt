-- ===== src/Forwarder/ConnTable/Laws.antt =====
-- `ConnTable` as a map from hashes to backends: what `get` returns after an `insert`.
use native.Mathlib.Nat.{mod-eq_of_lt, mod-lt}
use lb.Types.Packet.{FlowProto, TcpFlowState}
use lb.Types.Ttls.{ConnTtls}
use lb.Forwarder.Ring.{home}
use lb.Types.Net.{IpAddr}
use lb.Prelude.{
  Option-cases, ap, arith, false, inl, inr, refl, some, sym, true, ℕ, ◌%◌, ◌+◌, ◌^◌, ◌∙◌, ◌≡◌, ◌≢◌,
}
use lb.Prelude.Bits.{pow_pos}
use lb.Forwarder.RobinHood.{Probe}
use lb.Forwarder.ConnTable.Defs.{
  ConnEntry, ConnTable, dropped_full, insert, get, capacity, is_expired,
}
use lb.Forwarder.ConnTable.Shape.{IsTable, IsFresh, layout, home-eq, capacity-pow}
use lb.Forwarder.ConnTable.Insert.{Inserts}
use lb.Forwarder.ConnTable.Loop.{insert_loop-Inserts}
use lb.Forwarder.ConnTable.Find.{get-Holds, get-eq-some}

-- An entry seen just now has not expired.
seen_now :
    (ttls : ConnTtls) (e : ConnEntry) (now : ℕ) → e.last_seen ≡ now → is_expired ttls e now ≡ false
unfolding is_expired
seen_now ttls e now h = ground arith

first-Probe :
    (k : ℕ) (t : ConnTable) (v : IsTable k t) (hash : ℕ)
    → Probe (2 ^ k) (layout t.entries) hash (home t.mask hash) 0
first-Probe k t v hash =
    let z : hash % 2 ^ k + 0 ≡ hash % 2 ^ k = omega arith in
    record {
      at = rw z (home-eq k t v hash ∙ sym (mod-eq_of_lt (mod-lt hash (pow_pos k))));
      prior = λ q c e h. absurd (omega arith);
      ahead = λ j c e. omega arith;
    }

module _ (k : ℕ) (t : ConnTable) (hash : ℕ) (ip : IpAddr) (proto : FlowProto) (state : TcpFlowState)
    (now : ℕ) (v : IsTable k t) (f : IsFresh k t now) where
  entry : ConnEntry
  entry = record {
    hash = hash;
    backend_ip = ip;
    last_seen = now;
    proto = proto;
    tcp_state = state;
    occupied = true;
  }

  insert-Inserts : Inserts k t entry (insert t hash ip proto state now)
  unfolding insert entry
  insert-Inserts =
      insert_loop-Inserts k now (capacity t) t entry (home t.mask hash) 0 v f refl
        (seen_now t.ttls entry now refl) (first-Probe k t v hash)
        (omega (arith, capacity-pow k t v))

  -- If the table is in shape (a power of two of slots, laid out by Robin Hood, with no hash twice)
  -- and no entry has expired at `now`, `insert` keeps it in shape; so it does when the table is
  -- full.
  pub insert-IsTable : IsTable k (insert t hash ip proto state now).0
  insert-IsTable = insert-Inserts.table

  -- In a table in shape in which no entry has expired at `now`: unless `insert` reports that the
  -- table is full, `get` right after it returns the backend that was inserted.
  pub get-insert :
      (insert t hash ip proto state now).1 ≢ dropped_full
      → get (insert t hash ip proto state now).0 hash now ≡ some ip
  unfolding entry
  get-insert n =
      let i = insert-Inserts in
      let (x, h, hash-is, ip-is, seen) = i.placed n in
      get-Holds k (insert t hash ip proto state now).0 i.table hash x now h hash-is
        (seen_now _ x now seen)
      ∙ ap some ip-is

  -- In a table in shape in which no entry has expired at `now`: unless `insert` reports that the
  -- table is full, every other hash finds after it what it found before.
  pub get-insert_ne :
      (q : ℕ)
      → (insert t hash ip proto state now).1 ≢ dropped_full
      → q ≢ hash
      → get (insert t hash ip proto state now).0 q now ≡ get t q now
  unfolding entry
  get-insert_ne q n other =
      let i = insert-Inserts in
      let t' = (insert t hash ip proto state now).0 in
      elim (Option-cases (get t q now)) [
        | inr (a, found) ↦
            let (x, h, hash-is, ip-is, alive) = get-eq-some k t v q now a found in
            let h' = i.kept n x h (λ same. other (sym hash-is ∙ same)) in
            get-Holds k t' i.table q x now h' hash-is (rw i.same_ttls alive)
            ∙ ap some ip-is
            ∙ sym found
        | inl missing ↦ elim (Option-cases (get t' q now)) [
          | inl missing' ↦ missing' ∙ sym missing
          | inr (a, found) ↦
              let (x, h, hash-is, ip-is, alive) = get-eq-some k t' i.table q now a found in
              let h' = i.origin n x h (λ same. other (sym hash-is ∙ same)) in
              let back = get-Holds k t v q x now h' hash-is (rw i.same_ttls at alive) in
              found ∙ sym (back ∙ ap some ip-is)
        ]
      ]
