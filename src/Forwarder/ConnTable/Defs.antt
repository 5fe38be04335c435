-- ===== src/Forwarder/ConnTable/Defs.antt =====
-- The entries, the state and the operations of `ConnTable`.
use lb.Prelude.{
  Bool, List, Option, false, get_or, if◌then◌else◌, ltb, none, not, replicate, set, some, suc, true,
  zero, ℕ, ◌&&◌, ◌*◌, ◌+◌, ◌-◌, ◌/◌, ◌==◌, ◌^◌,
}
use lb.Types.Net.{IpAddr, v4, unspecified}
use lb.Types.Packet.{
  FlowProto, TcpFlowState, tcp_flow, udp_flow, other_flow, not_tcp, handshake, established, closing,
}
use lb.Types.Ttls.{ConnTtls}
use lb.Forwarder.Ring.{home, advance, probe_distance}

pub record ConnEntry : Type 0 where
  pub hash : ℕ
  pub backend_ip : IpAddr
  pub last_seen : ℕ
  pub proto : FlowProto
  pub tcp_state : TcpFlowState
  pub occupied : Bool

pub data InsertResult : Type 0 where
  inserted updated evicted_expired dropped_full : InsertResult

pub record ConnTable : Type 0 where
  pub entries : List ConnEntry
  pub mask : ℕ
  pub ttls : ConnTtls
  pub size : ℕ

-- The `empty` entry of `new`, made at `init_time`.
abbrev pub vacant : ℕ → ConnEntry
vacant init_time = record {
  hash = 0;
  backend_ip = v4 unspecified;
  last_seen = init_time;
  proto = other_flow;
  tcp_state = not_tcp;
  occupied = false;
}

-- `capacity` is `2 ^ k`, as the assertion of `new` demands.
unfoldable pub new : ℕ → ConnTtls → ℕ → ConnTable
new k ttls init_time = record {
  entries = replicate (2 ^ k) (vacant init_time);
  mask = 2 ^ k - 1;
  ttls = ttls;
  size = 0;
}

unfoldable pub capacity : ConnTable → ℕ
capacity t = t.mask + 1

unfoldable pub ttl_for : ConnTtls → FlowProto → TcpFlowState → ℕ
ttl_for ttls tcp_flow handshake = ttls.tcp_handshake
ttl_for ttls tcp_flow closing = ttls.tcp_closing
ttl_for ttls tcp_flow not_tcp = ttls.tcp_established
ttl_for ttls tcp_flow established = ttls.tcp_established
ttl_for ttls udp_flow state = ttls.udp
ttl_for ttls other_flow state = ttls.other

unfoldable pub is_expired : ConnTtls → ConnEntry → ℕ → Bool
is_expired ttls e now = ltb (ttl_for ttls e.proto e.tcp_state) (now - e.last_seen)

-- `&self.entries[idx]`.
abbrev pub entry_at : List ConnEntry → ℕ → ConnEntry
entry_at entries idx = get_or entries idx (vacant 0)

-- The loop of `get` from a slot and a distance on.
unfoldable pub get_loop : ℕ → ConnTable → ℕ → ℕ → ℕ → ℕ → Option IpAddr
get_loop zero t hash now idx dist = none
get_loop (suc n) t hash now idx dist =
    let e = entry_at t.entries idx in
    let rest = get_loop n t hash now (advance t.mask idx) (dist + 1) in
    if not e.occupied
    then none
    else if ltb (probe_distance t.mask e.hash idx) dist
    then none
    else if e.hash == hash
    then (if is_expired t.ttls e now then none else some e.backend_ip)
    else rest

unfoldable pub get : ConnTable → ℕ → ℕ → Option IpAddr
unfolding get_loop
get t hash now = get_loop (capacity t) t hash now (home t.mask hash) 0

-- `promote_state`: the clauses of the source, first match first.
unfoldable pub promote_state : TcpFlowState → TcpFlowState → TcpFlowState
promote_state closing incoming = closing
promote_state existing closing = closing
promote_state established incoming = established
promote_state existing established = established
promote_state not_tcp incoming = not_tcp
promote_state existing not_tcp = not_tcp
promote_state handshake handshake = handshake

-- The update in place of an entry that has the hash of `cur`.
unfoldable pub refresh : ConnEntry → ConnEntry → ConnEntry
refresh e cur = record e {
  backend_ip = cur.backend_ip;
  last_seen = cur.last_seen;
  proto = cur.proto;
  tcp_state = promote_state e.tcp_state cur.tcp_state;
}

-- `self.entries[idx] = e`.
abbrev pub write : ConnTable → ℕ → ConnEntry → ConnTable
write t idx e = record t { entries = set t.entries idx e }

-- The loop of `insert`. `reclaimed_expired |= false` leaves that flag unset, so that a free slot
-- always reports `Inserted`.
unfoldable pub insert_loop : ℕ → ConnTable → ℕ → ConnEntry → ℕ → ℕ → ConnTable × InsertResult
insert_loop zero t now cur idx dist = (t, dropped_full)
insert_loop (suc n) t now cur idx dist =
    let e = entry_at t.entries idx in
    let incumbent = probe_distance t.mask e.hash idx in
    let robbed = insert_loop n (write t idx cur) now e (advance t.mask idx) (incumbent + 1) in
    let passed = insert_loop n t now cur (advance t.mask idx) (dist + 1) in
    if not e.occupied
    then (record t { entries = set t.entries idx cur; size = t.size + 1 }, inserted)
    else if is_expired t.ttls e now
    then (write t idx cur, evicted_expired)
    else if e.hash == cur.hash
    then (write t idx (refresh e cur), updated)
    else if ltb incumbent dist
    then robbed
    else passed

unfoldable pub insert :
    ConnTable → ℕ → IpAddr → FlowProto → TcpFlowState → ℕ → ConnTable × InsertResult
unfolding insert_loop
insert t hash backend_ip proto tcp_state now =
    insert_loop (capacity t) t now
      (record {
        hash = hash;
        backend_ip = backend_ip;
        last_seen = now;
        proto = proto;
        tcp_state = tcp_state;
        occupied = true;
      })
      (home t.mask hash) 0

-- The walk of `touch` and of `with_matching_entry`: the slot that holds the hash.
unfoldable pub find_loop : ℕ → ConnTable → ℕ → ℕ → ℕ → Option ℕ
find_loop zero t hash idx dist = none
find_loop (suc n) t hash idx dist =
    let e = entry_at t.entries idx in
    let rest = find_loop n t hash (advance t.mask idx) (dist + 1) in
    if not e.occupied
    then none
    else if ltb (probe_distance t.mask e.hash idx) dist
    then none
    else if e.hash == hash
    then some idx
    else rest

unfoldable pub with_matching_entry : ConnTable → ℕ → (ConnEntry → ConnEntry) → ConnTable
unfolding find_loop
with_matching_entry t hash f = elim (find_loop (capacity t) t hash (home t.mask hash) 0) [
  | none ↦ t
  | some idx ↦ write t idx (f (entry_at t.entries idx))
]

unfoldable pub touch : ConnTable → ℕ → ℕ → ConnTable
unfolding with_matching_entry
touch t hash now = with_matching_entry t hash (λ e. record e { last_seen = now })

is_tcp : FlowProto → Bool
is_tcp tcp_flow = true
is_tcp other = false

is_closing : TcpFlowState → Bool
is_closing closing = true
is_closing other = false

-- What `mark_established` and `mark_closing` do to the entry.
unfoldable pub establish : ℕ → ConnEntry → ConnEntry
unfolding is_tcp is_closing
establish now e =
    if is_tcp e.proto && not (is_closing e.tcp_state)
    then record e { tcp_state = established; last_seen = now }
    else e

unfoldable pub close : ℕ → ConnEntry → ConnEntry
unfolding is_tcp
close now e = if is_tcp e.proto then record e { tcp_state = closing; last_seen = now } else e

unfoldable pub mark_established : ConnTable → ℕ → ℕ → ConnTable
unfolding with_matching_entry establish
mark_established t hash now = with_matching_entry t hash (establish now)

unfoldable pub mark_closing : ConnTable → ℕ → ℕ → ConnTable
unfolding with_matching_entry close
mark_closing t hash now = with_matching_entry t hash (close now)

-- `len`, and the fill ratio in parts per 10 000.
unfoldable pub len : ConnTable → ℕ
len t = t.size

unfoldable pub is_empty : ConnTable → Bool
is_empty t = t.size == 0

unfoldable pub fill_bp : ConnTable → ℕ
fill_bp t = t.size * 10000 / capacity t
