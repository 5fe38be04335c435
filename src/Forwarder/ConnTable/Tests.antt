-- ===== src/Forwarder/ConnTable/Tests.antt =====
-- Instances of the table's properties, on an empty table of four slots.
use Prim.Native.Nat.{max}
use lb.Prelude.{arith, refl, some, sym, ◌∙◌, ◌≡◌, ◌≢◌, max}
use lb.Types.Ttls.{ConnTtls}
use lb.Types.Net.{IpAddr, v4}
use lb.Forwarder.ConnTable.Defs.{
  InsertResult, promote_state, ConnTable, new, insert, get, dropped_full, inserted, insert_loop,
  capacity,
}
use lb.Forwarder.Ring.{home}
use lb.Types.Packet.{udp_flow, not_tcp, handshake, established, closing}
use lb.Forwarder.ConnTable.Shape.{new-IsFresh, IsTable, new-IsTable}
use lb.Forwarder.ConnTable.Laws.{insert-IsTable, get-insert, get-insert_ne}
use lb.Forwarder.ConnTable.States.{rank, promote_state-semilattice}

abbrev ttls : ConnTtls
ttls = record { tcp_handshake = 30; tcp_established = 300; tcp_closing = 10; udp = 60; other = 60 }

abbrev ip : IpAddr
ip = v4 (record { a = 10; b = 0; c = 0; d = 1 })

empty-IsTable : IsTable 2 (new 2 ttls 0)
empty-IsTable = new-IsTable 2 ttls 0 (omega arith)

abbrev pinned : ConnTable × InsertResult
pinned = insert (new 2 ttls 0) 7 ip udp_flow not_tcp 5

takes_slot : pinned.1 ≡ inserted
unfolding insert insert_loop new capacity home
takes_slot = refl

not_full : pinned.1 ≢ dropped_full
not_full e = let f : inserted ≡ dropped_full = sym takes_slot ∙ e in cc

insert-IsTable_example : IsTable 2 pinned.0
insert-IsTable_example =
    insert-IsTable 2 (new 2 ttls 0) 7 ip udp_flow not_tcp 5 empty-IsTable (new-IsFresh 2 ttls 0 5)

get-insert_example : get pinned.0 7 5 ≡ some ip
get-insert_example =
    get-insert 2 (new 2 ttls 0) 7 ip udp_flow not_tcp 5 empty-IsTable (new-IsFresh 2 ttls 0 5)
      not_full

get-insert_ne_example : get pinned.0 3 5 ≡ get (new 2 ttls 0) 3 5
get-insert_ne_example =
    get-insert_ne 2 (new 2 ttls 0) 7 ip udp_flow not_tcp 5 empty-IsTable (new-IsFresh 2 ttls 0 5) 3
      not_full (omega arith)

promote_state-semilattice_example :
    (promote_state (promote_state handshake established) closing
      ≡ promote_state handshake (promote_state established closing))
    × (promote_state handshake established ≡ promote_state established handshake)
    × (promote_state handshake handshake ≡ handshake)
    × (rank (promote_state handshake established) ≡ max (rank handshake) (rank established))
promote_state-semilattice_example = promote_state-semilattice handshake established closing
