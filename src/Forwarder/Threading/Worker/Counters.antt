-- ===== src/Forwarder/Threading/Worker/Counters.antt =====
-- A rewriter thread counts every frame once, and does not panic on any.
use lb.Types.Packet.Buffer.{flow_hash}
use lb.Forwarder.VipMatcher.{VipMatcher, match_packet}
use lb.Prelude.{
  Option, if◌then◌else◌, none, refl, some, sym, ℕ, ◌+◌, ◌∙◌, ◌≡◌, arith, false, true, List, lookup,
}
use lb.Prelude.Checked.{Checked, value, panic, ◌>>=◌, Runs, if-holds}
use lb.Types.Net.{IpAddr, v4, v6, Ipv4Addr, Bytes-discrete}
use lb.Types.Backend.{HealthStatus, BackendPoolId}
use lb.Types.Packet.{fragment_id, is_non_first_fragment, from_ipv4_bytes, PacketMeta, flow_proto}
use lb.Types.Packet.Parsed.{readers-Runs}
use lb.Hashing.Permutation.{Hasher}
use lb.Hashing.Table.{LookupTable}
use lb.Hashing.Build.{IsFull}
use lb.Forwarder.PacketBuf.{PacketBuf, sliced, in_use, Fits}
use lb.Forwarder.Gre.{encapsulate_ipv4}
use lb.Forwarder.Gre.Panics.{encapsulate_ipv4-Runs}
use lb.Forwarder.Rewriter.Metrics.{ForwarderMetrics}
use lb.Forwarder.Rewriter.Steps.{
  RewriterThread, choose_backend, record_fragment, transitions, initial_tcp_state,
}
use lb.Forwarder.Threading.Worker.{
  Verdict, count_dropped, count_forwarded, count_no_mapping, count_subsequent, tunnel,
  later_fragment_frame, route_frame, process_frame, mapped_backend, flow_hash, VipMatcher,
  flow_proto, match_packet,
}
use lb.Forwarder.Rewriter.Choice.{
  Kept, Kept-trans, Chosen, Noted, choose_backend-Chosen, transitions-Kept, record_fragment-Noted,
}

-- Without a panic, one counter more by one: that of the frames that go on, or that of the others.
abbrev pub Counted : ForwarderMetrics → Checked Verdict → Type 0
Counted m panic = ⊥
Counted m (value (w, frame, goes_on)) =
    (w.metrics.packets_received ≡ m.packets_received)
    × (w.metrics.packets_forwarded ≡ m.packets_forwarded + (if goes_on then 1 else 0))
    × (w.metrics.packets_dropped ≡ m.packets_dropped + (if goes_on then 0 else 1))

Counted-Kept :
    {m m' : ForwarderMetrics} (v : Checked Verdict) → Kept m m' → Counted m' v → Counted m v
Counted-Kept panic k h = h
Counted-Kept (value (w, f, b)) k (x, y, z) =
    (x ∙ k.received, rw (sym k.forwarded) y, rw (sym k.dropped) z)

Counted->>= {ℓ} :
    {A : Type ℓ} (m : ForwarderMetrics) (c : Checked A) (k : A → Checked Verdict)
    → Runs c
    → ((a : A) → Counted m (k a))
    → Counted m (c >>= k)
Counted->>= m (value a) k r h = h a
Counted->>= m panic k r h = r

tunnel-Counted :
    (count : RewriterThread → RewriterThread) (w : RewriterThread) (frame : PacketBuf)
    (src : Ipv4Addr) (dst : IpAddr)
    → ((count w).metrics.packets_received ≡ w.metrics.packets_received)
    → ((count w).metrics.packets_forwarded ≡ w.metrics.packets_forwarded + 1)
    → ((count w).metrics.packets_dropped ≡ w.metrics.packets_dropped)
    → Counted w.metrics (tunnel count w frame src dst)
unfolding tunnel count_dropped
tunnel-Counted count w frame src (v6 ip) a b c = (refl, omega arith, refl)
tunnel-Counted count w frame src (v4 ip) a b c =
    Counted->>= w.metrics (encapsulate_ipv4 frame src ip) _ (encapsulate_ipv4-Runs frame src ip)
      (λ r.
        if-holds (λ v. Counted w.metrics (value v)) r.1 (count w, r.0, true)
          (count_dropped w, r.0, false) (λ _. (a, b, omega (arith, c)))
          (λ _. (refl, omega arith, refl)))

later_fragment_frame-Counted :
    (hasher : Hasher) (w : RewriterThread) (frame : PacketBuf) (src : Ipv4Addr) (now : ℕ)
    → Fits frame
    → Counted w.metrics (later_fragment_frame hasher w frame src now)
unfolding later_fragment_frame count_no_mapping count_dropped count_subsequent count_forwarded
later_fragment_frame-Counted hasher w frame src now fits =
    let (_, _, id_runs, _, _, _) = readers-Runs (in_use frame) in
    sliced (Counted w.metrics) frame _ fits (
      Counted->>= w.metrics (fragment_id (in_use frame)) _ id_runs
        (λ fid. mapped (mapped_backend hasher w fid now)))
  where
    mapped :
        (o : Option IpAddr)
        → Counted w.metrics (elim o [
          | none ↦ value (count_no_mapping w, frame, false)
          | some backend_ip ↦ tunnel count_subsequent w frame src backend_ip
        ])
    mapped none = (refl, omega arith, refl)
    mapped (some ip) = tunnel-Counted count_subsequent w frame src ip refl refl refl

-- What a choice and a note leave to the tunnel.
route_frame-Counted :
    (hasher : Hasher) (health : IpAddr → Option HealthStatus) (w : RewriterThread)
    (frame : PacketBuf) (src : Ipv4Addr) (meta : PacketMeta) (t : LookupTable) (now : ℕ)
    → IsFull t
    → Fits frame
    → Counted w.metrics (route_frame hasher health w frame src meta t now)
unfolding route_frame count_forwarded
route_frame-Counted hasher health w frame src meta t now f fits =
    let hash = flow_hash hasher meta in
    choice
      (choose_backend health w t hash (flow_proto meta.protocol) (initial_tcp_state meta.tcp_flags)
        now)
      (choose_backend-Chosen health w t hash (flow_proto meta.protocol)
        (initial_tcp_state meta.tcp_flags) now f)
  where
    note :
        (ip : IpAddr) (r : RewriterThread) (c : Checked RewriterThread)
        → Kept w.metrics r.metrics
        → Noted r c
        → Counted w.metrics (c >>= (λ n. tunnel count_forwarded n frame src ip))
    note ip r panic k h = h
    note ip r (value n) k h =
        Counted-Kept (tunnel count_forwarded n frame src ip) (Kept-trans k h)
          (tunnel-Counted count_forwarded n frame src ip refl refl refl)

    choice :
        (c : Checked (RewriterThread × IpAddr))
        → Chosen w.metrics c
        → Counted w.metrics (
            c >>= (λ r.
              record_fragment hasher
                (transitions r.0 (flow_hash hasher meta) meta.tcp_flags now)
                frame
                r.1
                now
              >>= (λ n. tunnel count_forwarded n frame src r.1)))
    choice panic h = h
    choice (value (r, ip)) h =
        let moved = transitions r (flow_hash hasher meta) meta.tcp_flags now in
        note ip moved (record_fragment hasher moved frame ip now)
          (Kept-trans h (transitions-Kept r (flow_hash hasher meta) meta.tcp_flags now))
          (record_fragment-Noted hasher moved frame ip now fits)

-- For every frame whose length is within its buffer, whatever its bytes, and for tables that are all
-- full: a rewriter thread does not panic on it, counts it as received once, and counts it once either
-- as forwarded, when it is to be pushed to the TX queue, which may be full, or as dropped, when it
-- goes back to the pool.
pub process_frame-Counted :
    (hasher : Hasher) (health : IpAddr → Option HealthStatus) (vip_matcher : VipMatcher)
    (tables : List (BackendPoolId × LookupTable)) (w : RewriterThread) (frame : PacketBuf)
    (src : Ipv4Addr) (now : ℕ)
    → ((id : BackendPoolId) (t : LookupTable) → lookup Bytes-discrete id tables ≡ some t → IsFull t)
    → Fits frame
    → Counted
        (record w.metrics { packets_received = w.metrics.packets_received + 1 })
        (process_frame hasher health vip_matcher tables w frame src now)
unfolding process_frame count_dropped
process_frame-Counted hasher health vip_matcher tables w frame src now full fits =
    let (_, parse_runs, _, _, later_runs, _) = readers-Runs (in_use frame) in
    sliced (Counted received.metrics) frame _ fits (
      Counted->>= received.metrics (is_non_first_fragment (in_use frame)) _ later_runs (λ later.
        if-holds (Counted received.metrics) later _ _
          (λ _. later_fragment_frame-Counted hasher received frame src now fits)
          (λ _.
            Counted->>= received.metrics (from_ipv4_bytes (in_use frame)) _ parse_runs on_parsed)))
  where
    received : RewriterThread
    received =
        let m = w.metrics in
        record w { metrics = record m { packets_received = m.packets_received + 1 } }

    dropped_frame : Checked Verdict
    dropped_frame = value (count_dropped received, frame, false)

    on_table :
        (meta : PacketMeta) (o : Option LookupTable)
        → ((t : LookupTable) → o ≡ some t → IsFull t)
        → Counted received.metrics (elim o [
          | none ↦ dropped_frame
          | some table ↦ route_frame hasher health received frame src meta table now
        ])
    on_table meta none h = (refl, omega arith, refl)
    on_table meta (some t) h =
        route_frame-Counted hasher health received frame src meta t now (h t refl) fits

    on_pool :
        (meta : PacketMeta) (o : Option BackendPoolId)
        → Counted received.metrics (elim o [
          | none ↦ dropped_frame
          | some pool_id ↦ elim (lookup Bytes-discrete pool_id tables) [
            | none ↦ dropped_frame
            | some table ↦ route_frame hasher health received frame src meta table now
          ]
        ])
    on_pool meta none = (refl, omega arith, refl)
    on_pool meta (some id) = on_table meta (lookup Bytes-discrete id tables) (full id)

    on_parsed :
        (o : Option PacketMeta)
        → Counted received.metrics (elim o [
          | none ↦ dropped_frame
          | some meta ↦ elim (match_packet vip_matcher meta.dst_ip meta.protocol meta.dst_port) [
            | none ↦ dropped_frame
            | some pool_id ↦ elim (lookup Bytes-discrete pool_id tables) [
              | none ↦ dropped_frame
              | some table ↦ route_frame hasher health received frame src meta table now
            ]
          ]
        ])
    on_parsed none = (refl, omega arith, refl)
    on_parsed (some meta) =
        on_pool meta (match_packet vip_matcher meta.dst_ip meta.protocol meta.dst_port)
