-- ===== src/Forwarder/FragmentTable.antt =====
-- crates/lb-forwarder/src/fragment_table.rs: which backend the first fragment of a datagram went to.
use lb.Forwarder.Ring.{probe_distance, advance, home}
use lb.Types.Net.{IpAddr, v4, unspecified}
use lb.Prelude.{
  Bool, List, Option, false, get_or, if◌then◌else◌, ltb, none, not, replicate, set, some, suc, true,
  zero, ℕ, ◌+◌, ◌-◌, ◌==◌, ◌^◌, ◌||◌,
}

pub record FragmentEntry : Type 0 where
  pub hash : ℕ
  pub backend_ip : IpAddr
  pub inserted_at : ℕ
  pub occupied : Bool

pub record FragmentTable : Type 0 where
  pub entries : List FragmentEntry
  pub mask : ℕ
  pub ttl : ℕ

-- The `empty` entry of `new`.
abbrev pub vacant : ℕ → FragmentEntry
vacant init_time = record {
  hash = 0;
  backend_ip = v4 unspecified;
  inserted_at = init_time;
  occupied = false;
}

-- `capacity` is `2 ^ k`, as the assertion of `new` demands.
unfoldable pub new : ℕ → ℕ → ℕ → FragmentTable
new k ttl init_time = record {
  entries = replicate (2 ^ k) (vacant init_time);
  mask = 2 ^ k - 1;
  ttl = ttl;
}

-- `&self.entries[idx]`.
abbrev pub entry_at : List FragmentEntry → ℕ → FragmentEntry
entry_at entries idx = get_or entries idx (vacant 0)

-- `now.duration_since(entry.inserted_at) > self.ttl`.
unfoldable pub is_expired : ℕ → FragmentEntry → ℕ → Bool
is_expired ttl e now = ltb ttl (now - e.inserted_at)

-- The loop of `get` from a slot and a distance on.
unfoldable pub get_loop : ℕ → FragmentTable → ℕ → ℕ → ℕ → ℕ → Option IpAddr
get_loop zero t hash now idx dist = none
get_loop (suc n) t hash now idx dist =
    let e = entry_at t.entries idx in
    let rest = get_loop n t hash now (advance t.mask idx) (dist + 1) in
    if not e.occupied
    then none
    else if ltb (probe_distance t.mask e.hash idx) dist
    then none
    else if e.hash == hash
    then (if is_expired t.ttl e now then none else some e.backend_ip)
    else rest

unfoldable pub get : FragmentTable → ℕ → ℕ → Option IpAddr
unfolding get_loop
get t hash now = get_loop (t.mask + 1) t hash now (home t.mask hash) 0

-- `self.entries[idx] = e`.
abbrev pub write : FragmentTable → ℕ → FragmentEntry → FragmentTable
write t idx e = record t { entries = set t.entries idx e }

-- The loop of `insert`; what it still carries when it has seen every slot is dropped.
unfoldable pub insert_loop : ℕ → FragmentTable → ℕ → FragmentEntry → ℕ → ℕ → FragmentTable
insert_loop zero t now cur idx dist = t
insert_loop (suc n) t now cur idx dist =
    let e = entry_at t.entries idx in
    let incumbent = probe_distance t.mask e.hash idx in
    let robbed =
      insert_loop n (write t idx cur) now (record e { occupied = true }) (advance t.mask idx)
        (incumbent + 1) in
    let passed = insert_loop n t now cur (advance t.mask idx) (dist + 1) in
    if not e.occupied || (is_expired t.ttl e now || e.hash == cur.hash)
    then write t idx cur
    else if ltb incumbent dist
    then robbed
    else passed

unfoldable pub insert : FragmentTable → ℕ → IpAddr → ℕ → FragmentTable
unfolding insert_loop
insert t hash backend_ip now =
    insert_loop (t.mask + 1) t now
      (record { hash = hash; backend_ip = backend_ip; inserted_at = now; occupied = true })
      (home t.mask hash) 0
