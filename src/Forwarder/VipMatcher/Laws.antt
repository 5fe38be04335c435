-- ===== src/Forwarder/VipMatcher/Laws.antt =====
-- The matcher against the list that it was built from.
-- The pool of the last entry with the key.
use lb.Types.Net.{IpAddr}
use lb.Types.Packet.{Protocol}
use lb.Types.Backend.{BackendPoolId}
use lb.Forwarder.VipMatcher.{
  VipKey, VipEntry, BackendPoolId, VipKey-discrete, match_packet, insert_entries, VipMatcher,
  from_entries, new, insert, IpAddr, Protocol,
}
use lb.Prelude.Maps.{insert, lookup-insert, lookup-insert_ne}
use lb.Prelude.{
  List, Option, [], none, some, ◌∷◌, Option-cases, inl, inr, lookup, refl, ℕ, ◌≡◌, arith,
}

pub last_entry : VipKey → List VipEntry → Option BackendPoolId
last_entry k [] = none
last_entry k (e ∷ entries) =
    let later = last_entry k entries in
    elim later [
      | some p ↦ some p
      | none ↦ elim (VipKey-discrete k e.key) [ yes _ ↦ some e.pool_id | no _ ↦ none ]
    ]

lookup-insert_entries :
    (k : VipKey) (table : VipMatcher) (entries : List VipEntry)
    → lookup VipKey-discrete k (insert_entries table entries)
      ≡ elim (last_entry k entries) [ some p ↦ some p | none ↦ lookup VipKey-discrete k table ]
unfolding insert_entries last_entry
lookup-insert_entries k table [] = refl
lookup-insert_entries k table (e ∷ entries) =
    rw (lookup-insert_entries k (insert VipKey-discrete e.key e.pool_id table) entries)
      (elim (Option-cases (last_entry k entries)) [
        | inr (p, later) ↦ rw later
        | inl none_later ↦ rw none_later (elim (VipKey-discrete k e.key) [
          | yes same ↦ let hit = lookup-insert VipKey-discrete e.key e.pool_id table in grind arith
          | no other ↦
              let miss = lookup-insert_ne VipKey-discrete e.key k e.pool_id table other in
              grind arith
        ])
      ])

-- The pool that a destination matches is that of the last entry with its address, protocol and
-- port, and there is none exactly when no entry has them.
pub match_packet-from_entries :
    (entries : List VipEntry) (ip : IpAddr) (protocol : Protocol) (port : ℕ)
    → match_packet (from_entries entries) ip protocol port
      ≡ last_entry (record { ip = ip; protocol = protocol; port = port }) entries
unfolding match_packet from_entries new lookup
match_packet-from_entries entries ip protocol port =
    let k : VipKey = record { ip = ip; protocol = protocol; port = port } in
    rw (lookup-insert_entries k [] entries)
      (elim (Option-cases (last_entry k entries)) [ inl e ↦ rw e | inr (p, e) ↦ rw e ])
