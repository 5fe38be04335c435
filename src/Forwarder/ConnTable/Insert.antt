-- ===== src/Forwarder/ConnTable/Insert.antt =====
-- `insert` on a table without expired entries: it keeps the shape of the table, and what the
-- table held before, under other hashes.
use lb.Hashing.Slots.{get_or-set_ne, get_or-set_self}
use lb.Prelude.{
  ap, arith, length, set, some, sym, true, ℕ, ℕ_discrete, ◌<◌, ◌^◌, ◌∙◌, ◌≡◌, ◌≢◌, List, refl,
  false,
}
use lb.Forwarder.ConnTable.Defs.{
  ConnEntry, ConnTable, InsertResult, dropped_full, entry_at, write, is_expired, vacant,
}
use lb.Forwarder.ConnTable.Shape.{IsTable, IsFresh, Holds, layout, layout-occupied}

-- What an insertion of `cur` into `t` leaves.
pub record Inserts (k : ℕ) (t : ConnTable) (cur : ConnEntry) (r : ConnTable × InsertResult)
    : Type 0 where
  pub table : IsTable k r.0
  pub same_ttls : r.0.ttls ≡ t.ttls
  pub kept :
      r.1 ≢ dropped_full
      → (x : ConnEntry) → Holds k t.entries x
      → x.hash ≢ cur.hash
      → Holds k r.0.entries x
  pub exact :
      r.1 ≢ dropped_full
      → ((j : ℕ) → j < 2 ^ k → layout t.entries j ≢ some cur.hash)
      → Holds k r.0.entries cur
  pub placed :
      r.1 ≢ dropped_full
      → (x : ConnEntry) × Holds k r.0.entries x
        × (x.hash ≡ cur.hash)
        × (x.backend_ip ≡ cur.backend_ip)
        × (x.last_seen ≡ cur.last_seen)
  pub origin :
      r.1 ≢ dropped_full
      → (x : ConnEntry) → Holds k r.0.entries x
      → x.hash ≢ cur.hash
      → Holds k t.entries x

module _ (k : ℕ) (es : List ConnEntry) (s : length es ≡ 2 ^ k) where
  Holds-set : (i : ℕ) (e : ConnEntry) → i < 2 ^ k → e.occupied ≡ true → Holds k (set es i e) e
  Holds-set i e b o = record {
    slot = i;
    inside = b;
    entry_is = get_or-set_self es i e (vacant 0) (omega arith);
    occupied = o;
  }

  Holds-set_ne : (i : ℕ) (e x : ConnEntry) (h : Holds k es x) → i ≢ h.slot → Holds k (set es i e) x
  Holds-set_ne i e x h away = record {
    slot = h.slot;
    inside = h.inside;
    entry_is = get_or-set_ne es i h.slot e (vacant 0) away ∙ h.entry_is;
    occupied = h.occupied;
  }

  set-Holds :
      (i : ℕ) (e x : ConnEntry)
      → i < 2 ^ k
      → Holds k (set es i e) x
      → x.hash ≢ e.hash
      → Holds k es x
  set-Holds i e x b h other = elim (ℕ_discrete i h.slot) [
    | yes same ↦
        let x-is : x ≡ e =
          sym h.entry_is ∙ (rw (← same) (get_or-set_self es i e (vacant 0) (omega arith))) in
        absurd (other (ap (λ (y : ConnEntry). y.hash) x-is))
    | no away ↦ record {
      slot = h.slot;
      inside = h.inside;
      entry_is = sym (get_or-set_ne es i h.slot e (vacant 0) away) ∙ h.entry_is;
      occupied = h.occupied;
    }
  ]

  pub Holds-layout : (x : ConnEntry) (h : Holds k es x) → layout es h.slot ≡ some x.hash
  Holds-layout x h =
      layout-occupied es h.slot (rw h.entry_is h.occupied)
      ∙ ap some (ap (λ (y : ConnEntry). y.hash) h.entry_is)

module _ (k : ℕ) (t : ConnTable) (v : IsTable k t) where
  -- The entry goes into a slot that is free, or that holds the same hash.
  pub put-Inserts :
      (i size : ℕ) (e cur : ConnEntry) (r : InsertResult)
      → i < 2 ^ k
      → e.occupied ≡ true
      → IsTable k (record t { entries = set t.entries i e; size = size })
      → e.hash ≡ cur.hash
      → e.backend_ip ≡ cur.backend_ip
      → e.last_seen ≡ cur.last_seen
      → (((j : ℕ) → j < 2 ^ k → layout t.entries j ≢ some cur.hash) → e ≡ cur)
      → ((g : ℕ) → layout t.entries i ≡ some g → g ≡ cur.hash)
      → Inserts k t cur (record t { entries = set t.entries i e; size = size }, r)
  put-Inserts i size e cur r b o shape he ie le exact mine = record {
    table = shape;
    same_ttls = refl;
    kept = λ n x h other.
        Holds-set_ne k t.entries v.slots i e x h
          (λ same. other (mine x.hash (rw same (Holds-layout k t.entries v.slots x h))));
    exact = λ n away. rw (← exact away) (Holds-set k t.entries v.slots i e b o);
    placed = λ n. (e, Holds-set k t.entries v.slots i e b o, he, ie, le);
    origin = λ n x h other. set-Holds k t.entries v.slots i e x b h (λ same. other (same ∙ he));
  }

  -- Two entries with one hash are one.
  pub Holds-same :
      (x y : ConnEntry) → Holds k t.entries x → Holds k t.entries y → x.hash ≡ y.hash → x ≡ y
  Holds-same x y h g e =
      let slots : h.slot ≡ g.slot =
        v.distinct.same h.slot g.slot x.hash h.inside g.inside
          (Holds-layout k t.entries v.slots x h)
          (Holds-layout k t.entries v.slots y g ∙ ap some (sym e)) in
      sym h.entry_is ∙ rw slots g.entry_is

-- The entry takes the place of another, which is then inserted into what is left.
module _ (k : ℕ) (t : ConnTable) (v : IsTable k t) (i : ℕ) (e cur : ConnEntry)
    (r : ConnTable × InsertResult) (b : i < 2 ^ k) (o : cur.occupied ≡ true)
    (here : entry_at t.entries i ≡ e) (occ : e.occupied ≡ true) (other : e.hash ≢ cur.hash)
    (gone : (j : ℕ) → j < 2 ^ k → layout (set t.entries i cur) j ≢ some e.hash)
    (rest : Inserts k (write t i cur) e r) where
  robbed-Holds : Holds k t.entries e
  robbed-Holds = record { slot = i; inside = b; entry_is = here; occupied = occ }

  rob-cur : r.1 ≢ dropped_full → Holds k r.0.entries cur
  rob-cur n = rest.kept n cur (Holds-set k t.entries v.slots i cur b o) (λ same. other (sym same))

  rob-kept :
      r.1 ≢ dropped_full
      → (x : ConnEntry) → Holds k t.entries x
      → x.hash ≢ cur.hash
      → Holds k r.0.entries x
  rob-kept n x h away = elim (ℕ_discrete x.hash e.hash) [
    | yes same ↦ rw (Holds-same k t v x e h robbed-Holds same) (rest.exact n gone)
    | no differ ↦
        rest.kept n x
          (Holds-set_ne k t.entries v.slots i cur x h (λ at.
            let x-is : x ≡ e = sym h.entry_is ∙ (rw (← at) here) in
            differ (ap (λ (y : ConnEntry). y.hash) x-is)))
          differ
  ]

  rob-origin :
      r.1 ≢ dropped_full
      → (x : ConnEntry) → Holds k r.0.entries x
      → x.hash ≢ cur.hash
      → Holds k t.entries x
  rob-origin n x h away = elim (ℕ_discrete x.hash e.hash) [
    | yes same ↦ rw (Holds-same k r.0 rest.table x e h (rest.exact n gone) same) robbed-Holds
    | no differ ↦ set-Holds k t.entries v.slots i cur x b (rest.origin n x h differ) away
  ]

  pub rob-Inserts : Inserts k t cur r
  rob-Inserts = record {
    table = rest.table;
    same_ttls = rest.same_ttls;
    kept = rob-kept;
    exact = λ n away. rob-cur n;
    placed = λ n. (cur, rob-cur n, refl, refl, refl);
    origin = rob-origin;
  }

-- A full table: the probe has come round.
pub full-Inserts :
    (k : ℕ) (t : ConnTable) (cur : ConnEntry) → IsTable k t → Inserts k t cur (t, dropped_full)
full-Inserts k t cur v = record {
  table = v;
  same_ttls = refl;
  kept = λ n. absurd (n refl);
  exact = λ n. absurd (n refl);
  placed = λ n. absurd (n refl);
  origin = λ n. absurd (n refl);
}

pub alive_write :
    (k : ℕ) (t : ConnTable) (now i : ℕ) (e : ConnEntry)
    → length t.entries ≡ 2 ^ k
    → i < 2 ^ k
    → IsFresh k t now
    → is_expired t.ttls e now ≡ false
    → IsFresh k (write t i e) now
alive_write k t now i e s b f alive = record {
  fresh = λ j c occ. elim (ℕ_discrete i j) [
    | yes same ↦ rw (← same) (rw (get_or-set_self t.entries i e (vacant 0) (omega arith)) alive)
    | no away ↦
        let is = get_or-set_ne t.entries i j e (vacant 0) away in rw is (f.fresh j c (rw is at occ))
  ];
}
