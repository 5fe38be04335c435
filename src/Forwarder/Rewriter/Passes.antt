-- ===== src/Forwarder/Rewriter/Passes.antt =====
-- Each stage of `process_one` runs to its end and leaves the counters of packets.
use lb.Prelude.{not, refl, ℕ, List, Option, lookup, none, some, ◌+◌, ◌≡◌, arith}
use lb.Prelude.Checked.{Checked, value, panic, ◌>>=◌, Runs, if-holds, >>=-Runs}
use lb.Types.Net.{IpAddr, v4, v6, Bytes-discrete, Bytes}
use lb.Types.Backend.{HealthStatus, BackendPoolId}
use lb.Types.Packet.{
  FragmentId, fragment_id, is_non_first_fragment, from_ipv4_bytes, PacketMeta, flow_proto,
}
use lb.Types.Packet.Buffer.{flow_hash, fragment_hash}
use lb.Types.Packet.Parsed.{readers-Runs}
use lb.Hashing.Permutation.{Hasher}
use lb.Hashing.Table.{LookupTable}
use lb.Hashing.Build.{IsFull}
use lb.Forwarder.PacketBuf.{PacketBuf, sliced, in_use, Fits, overwrite, length-overwrite}
use lb.Forwarder.FragmentTable
use lb.Forwarder.MssClamp.{ClampResult, clamp_mss, clamped, noop, mss_missing, not_syn}
use lb.Forwarder.MssClamp.Laws.{clamp_mss-Keeps, Keeps}
use lb.Forwarder.Icmp.{should_generate_icmp, generate_icmp_frag_needed, allow}
use lb.Forwarder.Icmp.Panics.{should_generate_icmp-Runs, generate_icmp_frag_needed-Runs}
use lb.Forwarder.Gre.{encapsulate_ipv4}
use lb.Forwarder.Gre.Panics.{encapsulate_ipv4-Runs}
use lb.Forwarder.VipMatcher.{match_packet, VipMatcher}
use lb.Forwarder.Rewriter.Metrics.{ForwarderMetrics}
use lb.Forwarder.Rewriter.Choice.{
  Kept, kept, Kept-trans, Chosen, Noted, choose_backend-Chosen, transitions-Kept,
  record_fragment-Noted,
}
use lb.Forwarder.Rewriter.Steps.{
  RewriterThread, ProcessResult, dropped, choose_backend, record_fragment, transitions, encapsulate,
  gre_encap_to, forward_fragment, count_clamp, vip_of, send, clamp_output, route, process_one,
  initial_tcp_state,
}

-- A step that does not panic and leaves the counters of packets.
abbrev pub Passed {ℓ} : {A : Type ℓ} → ForwarderMetrics → Checked (RewriterThread × A) → Type 0
Passed m panic = ⊥
Passed m (value (r, a)) = Kept m r.metrics

Passed->>= {ℓ κ} :
    {A : Type ℓ} {B : Type κ} (m : ForwarderMetrics) (c : Checked A)
    (k : A → Checked (RewriterThread × B))
    → Runs c
    → ((a : A) → Passed m (k a))
    → Passed m (c >>= k)
Passed->>= m (value a) k r h = h a
Passed->>= m panic k r h = r

Passed-Kept {ℓ} :
    {A : Type ℓ} {m m' : ForwarderMetrics} (c : Checked (RewriterThread × A))
    → Kept m m'
    → Passed m' c
    → Passed m c
Passed-Kept panic k h = h
Passed-Kept (value (r, a)) k h = Kept-trans k h

encapsulate-Runs : (output : PacketBuf) (src dst : IpAddr) → Runs (encapsulate output src dst)
unfolding encapsulate
encapsulate-Runs output (v4 s) (v4 d) =
    >>=-Runs (encapsulate_ipv4 output s d) _ (encapsulate_ipv4-Runs output s d) (λ _. tt)
encapsulate-Runs output (v4 s) (v6 d) = tt
encapsulate-Runs output (v6 s) d = tt

forward_fragment-Passed :
    (hasher : Hasher) (r : RewriterThread) (input : PacketBuf) (now : ℕ)
    → Fits input
    → Passed r.metrics (forward_fragment hasher r input now)
unfolding forward_fragment gre_encap_to
forward_fragment-Passed hasher r input now fits =
    let (_, _, id_runs, _, _, _) = readers-Runs (in_use input) in
    sliced (Passed r.metrics) input _ fits
      (Passed->>= r.metrics (fragment_id (in_use input)) _ id_runs on_id)
  where
    counted_drop : RewriterThread
    counted_drop =
        let m = r.metrics in
        record r {
          metrics = record m {
            fragment_drop_no_mapping_total = m.fragment_drop_no_mapping_total + 1;
          };
        }

    counted_next : RewriterThread
    counted_next =
        let m = r.metrics in
        record r {
          metrics = record m {
            fragment_subsequent_forwarded_total = m.fragment_subsequent_forwarded_total + 1;
          };
        }

    on_entry :
        (o : Option IpAddr)
        → Passed r.metrics (elim o [
          | none ↦ value (counted_drop, dropped)
          | some ip ↦ encapsulate input r.src_ip ip >>= (λ result. value (counted_next, result))
        ])
    on_entry none = kept refl refl refl refl
    on_entry (some ip) =
        Passed->>= r.metrics (encapsulate input r.src_ip ip) _ (encapsulate-Runs input r.src_ip ip)
          (λ _. kept refl refl refl refl)

    on_id :
        (o : Option FragmentId)
        → Passed r.metrics (elim o [
          | none ↦ value (r, dropped)
          | some f ↦ elim (FragmentTable.get r.fragment_table (fragment_hash hasher f) now) [
            | none ↦ value (counted_drop, dropped)
            | some ip ↦ encapsulate input r.src_ip ip >>= (λ result. value (counted_next, result))
          ]
        ])
    on_id none = kept refl refl refl refl
    on_id (some f) = on_entry (FragmentTable.get r.fragment_table (fragment_hash hasher f) now)

count_clamp-Kept : (c : ClampResult) (m : ForwarderMetrics) → Kept m (count_clamp c m)
unfolding count_clamp
count_clamp-Kept clamped m = kept refl refl refl refl
count_clamp-Kept noop m = kept refl refl refl refl
count_clamp-Kept mss_missing m = kept refl refl refl refl
count_clamp-Kept ClampResult.not_tcp m = kept refl refl refl refl
count_clamp-Kept not_syn m = kept refl refl refl refl

-- As `Passed`, with a packet whose length is within its buffer.
abbrev Clamped : ForwarderMetrics → Checked (RewriterThread × PacketBuf) → Type 0
Clamped m panic = ⊥
Clamped m (value (r, p)) = Kept m r.metrics × Fits p

clamp_output-Clamped :
    (r : RewriterThread) (input : PacketBuf) → Fits input → Clamped r.metrics (clamp_output r input)
unfolding clamp_output Keeps
clamp_output-Clamped r input fits = sliced (Clamped r.metrics) input _ fits (
    after (clamp_mss (in_use input) r.mtu_config.tcp_mss_clamp)
      (clamp_mss-Keeps (in_use input) r.mtu_config.tcp_mss_clamp))
  where
    after :
        (c : Checked (Bytes × ClampResult))
        → Keeps (in_use input) c
        → Clamped r.metrics (
            c >>= (λ w. value (
              record r { metrics = count_clamp w.1 r.metrics },
              record input { bytes = overwrite input.bytes 0 w.0 },
            )))
    after panic h = h
    after (value (w, c)) h =
        (count_clamp-Kept c r.metrics, omega (arith, fits, length-overwrite input.bytes 0 w))

send-Passed :
    (r : RewriterThread) (output : PacketBuf) (dst backend : IpAddr) (now : ℕ)
    → Fits output
    → Passed r.metrics (send r output dst backend now)
unfolding send
send-Passed r output dst backend now fits = sliced (Passed r.metrics) output _ fits (
    Passed->>= r.metrics (should_generate_icmp (in_use output) r.mtu_config.network_mtu) _
      (should_generate_icmp-Runs (in_use output) r.mtu_config.network_mtu)
      (λ oversized.
        if-holds (Passed r.metrics) (not oversized) _ _
          (λ _.
            Passed->>= r.metrics (encapsulate output r.src_ip backend) _
              (encapsulate-Runs output r.src_ip backend) (λ _. kept refl refl refl refl))
          (λ _.
            if-holds (Passed r.metrics) (allow r.icmp_rate_limiter now).1 _ _
              (λ _.
                Passed->>= r.metrics
                  (generate_icmp_frag_needed (in_use output) (vip_of dst)
                    r.mtu_config.effective_inner_mtu)
                  _
                  (generate_icmp_frag_needed-Runs (in_use output) (vip_of dst)
                    r.mtu_config.effective_inner_mtu)
                  (λ _. kept refl refl refl refl))
              (λ _. kept refl refl refl refl))))

module _ (hasher : Hasher) (health : IpAddr → Option HealthStatus) (now : ℕ) where
  route-Passed :
      (r : RewriterThread) (input output : PacketBuf) (meta : PacketMeta) (t : LookupTable)
      → IsFull t
      → Fits input
      → Fits output
      → Passed r.metrics (route hasher health r input output meta t now)
  unfolding route
  route-Passed r input output meta t f fits fits' =
      let hash = flow_hash hasher meta in
      choice
        (choose_backend health r t hash (flow_proto meta.protocol)
          (initial_tcp_state meta.tcp_flags) now)
        (choose_backend-Chosen health r t hash (flow_proto meta.protocol)
          (initial_tcp_state meta.tcp_flags) now f)
    where
      note :
          (ip : IpAddr) (q : RewriterThread) (c : Checked RewriterThread)
          → Kept r.metrics q.metrics
          → Noted q c
          → Passed r.metrics (c >>= (λ n. send n output meta.dst_ip ip now))
      note ip q panic k h = h
      note ip q (value n) k h =
          Passed-Kept (send n output meta.dst_ip ip now) (Kept-trans k h)
            (send-Passed n output meta.dst_ip ip now fits')

      choice :
          (c : Checked (RewriterThread × IpAddr))
          → Chosen r.metrics c
          → Passed r.metrics (
              c >>= (λ q.
                record_fragment hasher
                  (transitions q.0 (flow_hash hasher meta) meta.tcp_flags now)
                  input
                  q.1
                  now
                >>= (λ n. send n output meta.dst_ip q.1 now)))
      choice panic h = h
      choice (value (q, ip)) h =
          let moved = transitions q (flow_hash hasher meta) meta.tcp_flags now in
          note ip moved (record_fragment hasher moved input ip now)
            (Kept-trans h (transitions-Kept q (flow_hash hasher meta) meta.tcp_flags now))
            (record_fragment-Noted hasher moved input ip now fits)

  -- Past the clamp.
  abbrev routed :
      PacketBuf
      → PacketMeta
      → RewriterThread × PacketBuf
      → Option LookupTable
      → Checked (RewriterThread × ProcessResult)
  routed input meta c none = value (c.0, dropped)
  routed input meta c (some table) = route hasher health c.0 input c.1 meta table now

  routed-Passed :
      (r : RewriterThread) (input : PacketBuf) (meta : PacketMeta) (o : Option LookupTable)
      (c : Checked (RewriterThread × PacketBuf))
      → ((t : LookupTable) → o ≡ some t → IsFull t)
      → Fits input
      → Clamped r.metrics c
      → Passed r.metrics (c >>= (λ x. routed input meta x o))
  routed-Passed r input meta o panic f fits h = h
  routed-Passed r input meta none (value (q, output)) f fits (h, _) = h
  routed-Passed r input meta (some t) (value (q, output)) f fits (h, fits') =
      Passed-Kept (route hasher health q input output meta t now) h
        (route-Passed q input output meta t (f t refl) fits fits')

  module _ (vip_matcher : VipMatcher) (tables : List (BackendPoolId × LookupTable))
      (full : (id : BackendPoolId) (t : LookupTable)
        → lookup Bytes-discrete id tables ≡ some t
        → IsFull t) where
    matched-Passed :
        (r : RewriterThread) (input : PacketBuf) (meta : PacketMeta) (o : Option BackendPoolId)
        → Fits input
        → Passed r.metrics (elim o [
          | none ↦ value (r, dropped)
          | some pool_id ↦
              clamp_output r input
              >>= (λ x. routed input meta x (lookup Bytes-discrete pool_id tables))
        ])
    matched-Passed r input meta none fits = kept refl refl refl refl
    matched-Passed r input meta (some id) fits =
        routed-Passed r input meta (lookup Bytes-discrete id tables) (clamp_output r input)
          (full id) fits (clamp_output-Clamped r input fits)

    pub process_one-Passed :
        (r : RewriterThread) (input : PacketBuf)
        → Fits input
        → Passed r.metrics (process_one hasher health vip_matcher tables r input now)
    unfolding process_one
    process_one-Passed r input fits =
        let (_, parse_runs, _, _, later_runs, _) = readers-Runs (in_use input) in
        sliced (Passed r.metrics) input _ fits (
          Passed->>= r.metrics (is_non_first_fragment (in_use input)) _ later_runs (λ later.
            if-holds (Passed r.metrics) later _ _
              (λ _. forward_fragment-Passed hasher r input now fits)
              (λ _. Passed->>= r.metrics (from_ipv4_bytes (in_use input)) _ parse_runs on_parsed)))
      where
        on_parsed :
            (o : Option PacketMeta)
            → Passed r.metrics (elim o [
              | none ↦ value (r, dropped)
              | some meta ↦
                  elim (match_packet vip_matcher meta.dst_ip meta.protocol meta.dst_port) [
                    | none ↦ value (r, dropped)
                    | some pool_id ↦
                        clamp_output r input
                        >>= (λ x. routed input meta x (lookup Bytes-discrete pool_id tables))
                  ]
            ])
        on_parsed none = kept refl refl refl refl
        on_parsed (some meta) =
            matched-Passed r input meta
              (match_packet vip_matcher meta.dst_ip meta.protocol meta.dst_port) fits
