-- ===== src/Forwarder/Rewriter/Steps.antt =====
-- `RewriterThread` and its methods. What it shares with other threads is an argument: the matcher
-- and the tables, loaded once per batch, and the health map, a concurrent map that every packet
-- reads. Accesses of a slice are checked, so that a panic would show.
use lb.Hashing.Permutation.{Hasher}
use lb.Hashing.Table.{LookupTable}
use lb.Types.Backend.{HealthStatus, BackendPoolId}
use lb.Forwarder.MssClamp.{ClampResult, clamp_mss, clamped, noop, mss_missing, not_syn}
use lb.Types.Packet.Buffer.{flow_hash, fragment_hash}
use lb.Forwarder.VipMatcher.{match_packet, VipMatcher}
use lb.Forwarder.Icmp.{IcmpRateLimiter, should_generate_icmp, generate_icmp_frag_needed, allow}
use lb.Types.Mtu.{MtuConfig}
use lb.Forwarder.FragmentTable.{FragmentTable}
use lb.Forwarder.Rewriter.Metrics.{ForwarderMetrics}
use lb.Forwarder.PacketBuf.{PacketBuf, as_slice, overwrite}
use lb.Types.Packet.{
  rst, fin, FlowProto, syn, ack, TcpFlowState, not_tcp, closing, handshake, established,
  fragment_id, is_fragment, flow_proto, from_ipv4_bytes, is_non_first_fragment, PacketMeta,
}
use lb.Forwarder.ConnTable.Defs.{
  InsertResult, ConnTable, insert, inserted, updated, mark_closing, evicted_expired,
  mark_established, dropped_full, touch,
}
use lb.Config.Applier.{is_healthy}
use lb.Types.Net.{IpAddr, Ipv4Addr, unspecified, Bytes-discrete}
use lb.Forwarder.Gre.{encapsulate_ipv4}
use lb.Prelude.{Option, if◌then◌else◌, none, not, some, ℕ, ◌&&◌, ◌+◌, ◌||◌, List, lookup}
use lb.Types.Net.{v4, v6}
use lb.Forwarder.ConnTable.Defs
use lb.Forwarder.FragmentTable
use lb.Hashing.Table
use lb.Prelude.Checked.{Checked, value, panic, ◌>>=◌}

pub record RewriterThread : Type 0 where
  pub src_ip : IpAddr
  pub conn_table : ConnTable
  pub fragment_table : FragmentTable
  pub metrics : ForwarderMetrics
  pub mtu_config : MtuConfig
  pub icmp_rate_limiter : IcmpRateLimiter

pub data ProcessResult : Type 0 where
  forwarded icmp : PacketBuf → ProcessResult
  oversized_rate_limited dropped : ProcessResult

-- The first state of a flow, from the flags of its first packet.
unfoldable pub initial_tcp_state : Option ℕ → TcpFlowState
unfolding rst fin syn ack
initial_tcp_state none = not_tcp
initial_tcp_state (some f) =
    if rst f || fin f
    then closing
    else if syn f && not (ack f)
    then handshake
    else if ack f
    then established
    else handshake

-- The counters of `insert_tracked`.
unfoldable pub count_insert : InsertResult → ForwarderMetrics → ForwarderMetrics
count_insert inserted m = record m { conn_table_inserts_total = m.conn_table_inserts_total + 1 }
count_insert updated m = record m { conn_table_inserts_total = m.conn_table_inserts_total + 1 }
count_insert evicted_expired m = record m {
  conn_table_inserts_total = m.conn_table_inserts_total + 1;
  eviction_expired_on_insert = m.eviction_expired_on_insert + 1;
}
count_insert dropped_full m = record m { eviction_dropped_full = m.eviction_dropped_full + 1 }

unfoldable pub insert_tracked :
    RewriterThread → ℕ → IpAddr → FlowProto → TcpFlowState → ℕ → RewriterThread
unfolding count_insert insert
insert_tracked r hash backend_ip proto tcp_state now =
    let (table, result) = insert r.conn_table hash backend_ip proto tcp_state now in
    record r { conn_table = table; metrics = count_insert result r.metrics }

unfoldable pub apply_tcp_transitions : RewriterThread → ℕ → ℕ → ℕ → RewriterThread
unfolding rst fin syn ack mark_closing mark_established
apply_tcp_transitions r hash flags now =
    let m = r.metrics in
    if rst flags
    then record r {
      conn_table = mark_closing r.conn_table hash now;
      metrics = record m { tcp_transition_closing_rst = m.tcp_transition_closing_rst + 1 };
    }
    else if fin flags
    then record r {
      conn_table = mark_closing r.conn_table hash now;
      metrics = record m { tcp_transition_closing_fin = m.tcp_transition_closing_fin + 1 };
    }
    else if ack flags && not (syn flags)
    then record r {
      conn_table = mark_established r.conn_table hash now;
      metrics = record m { tcp_transition_established = m.tcp_transition_established + 1 };
    }
    else r

-- Both addresses of the tunnel have to be IPv4.
unfoldable pub encapsulate : PacketBuf → IpAddr → IpAddr → Checked ProcessResult
unfolding encapsulate_ipv4
encapsulate output (v4 src_ipv4) (v4 dst_ipv4) = do
  (pkt, fits) ← encapsulate_ipv4 output src_ipv4 dst_ipv4
  value (if fits then forwarded pkt else dropped)
encapsulate output (v4 src_ipv4) (v6 ip) = value dropped
encapsulate output (v6 ip) dst = value dropped

unfoldable pub gre_encap_to : RewriterThread → PacketBuf → IpAddr → Checked ProcessResult
unfolding encapsulate
gre_encap_to r input backend_ip = encapsulate input r.src_ip backend_ip

-- The branch of `process_one` for a fragment with an offset.
unfoldable pub forward_fragment :
    Hasher → RewriterThread → PacketBuf → ℕ → Checked (RewriterThread × ProcessResult)
unfolding fragment_id fragment_hash gre_encap_to FragmentTable.get as_slice
forward_fragment hasher r input now = do
  slice ← as_slice input
  fid ← fragment_id slice
  elim fid [
    | none ↦ value (r, dropped)
    | some f ↦ elim (FragmentTable.get r.fragment_table (fragment_hash hasher f) now) [
      | none ↦
          let m = r.metrics in
          value (
            record r {
              metrics = record m {
                fragment_drop_no_mapping_total = m.fragment_drop_no_mapping_total + 1;
              };
            },
            dropped,
          )
      | some backend_ip ↦
          let m = r.metrics in
          let counted = record r {
            metrics = record m {
              fragment_subsequent_forwarded_total = m.fragment_subsequent_forwarded_total + 1;
            };
          } in
          do result ← gre_encap_to counted input backend_ip; value (counted, result)
    ]
  ]

unfoldable pub count_clamp : ClampResult → ForwarderMetrics → ForwarderMetrics
count_clamp clamped m = record m { mss_clamp_total = m.mss_clamp_total + 1 }
count_clamp noop m = record m { mss_clamp_noop_total = m.mss_clamp_noop_total + 1 }
count_clamp mss_missing m = record m { mss_clamp_missing_total = m.mss_clamp_missing_total + 1 }
count_clamp ClampResult.not_tcp m = m
count_clamp not_syn m = m

-- A fresh choice by the lookup table, which the connection table remembers.
unfoldable pub pin_backend :
    RewriterThread
    → LookupTable
    → ℕ
    → FlowProto
    → TcpFlowState
    → ℕ
    → Checked (RewriterThread × IpAddr)
unfolding insert_tracked Table.lookup
pin_backend r table flow_hash proto initial_state now = elim (Table.lookup table flow_hash) [
  | none ↦ panic
  | some backend ↦ value (insert_tracked r flow_hash backend.ip proto initial_state now, backend.ip)
]

-- The backend of a flow: the cached one while it is not unhealthy, and else a fresh choice.
unfoldable pub choose_backend :
    (IpAddr → Option HealthStatus)
    → RewriterThread
    → LookupTable
    → ℕ
    → FlowProto
    → TcpFlowState
    → ℕ
    → Checked (RewriterThread × IpAddr)
unfolding pin_backend is_healthy Defs.get touch
choose_backend health r table flow_hash proto initial_state now =
    let m = r.metrics in
    elim (Defs.get r.conn_table flow_hash now) [
      | none ↦
          pin_backend
            (record r { metrics = record m { conn_table_misses = m.conn_table_misses + 1 } }) table
            flow_hash proto initial_state now
      | some cached_ip ↦
          if is_healthy (health cached_ip)
          then value (
            record r {
              metrics = record m { conn_table_hits = m.conn_table_hits + 1 };
              conn_table = touch r.conn_table flow_hash now;
            },
            cached_ip,
          )
          else pin_backend
              (record r {
                metrics = record m {
                  conn_table_fallback_to_maglev_total = m.conn_table_fallback_to_maglev_total + 1;
                };
              })
              table flow_hash proto initial_state now
    ]

-- A first fragment leaves its backend to the ones that follow. The source takes the slice of the
-- same buffer for both tests.
unfoldable pub record_fragment :
    Hasher → RewriterThread → PacketBuf → IpAddr → ℕ → Checked RewriterThread
unfolding is_fragment fragment_id fragment_hash FragmentTable.insert as_slice
record_fragment hasher r input backend_ip now = do
  slice ← as_slice input
  fragment ← is_fragment slice
  if not fragment then value r else (do
    fid ← fragment_id slice
    value (elim fid [
      | none ↦ r
      | some f ↦
          let m = r.metrics in
          record r {
            fragment_table =
                FragmentTable.insert r.fragment_table (fragment_hash hasher f) backend_ip now;
            metrics = record m { fragment_first_total = m.fragment_first_total + 1 };
          }
    ]))

unfoldable pub transitions : RewriterThread → ℕ → Option ℕ → ℕ → RewriterThread
unfolding apply_tcp_transitions
transitions r flow_hash none now = r
transitions r flow_hash (some flags) now = apply_tcp_transitions r flow_hash flags now

-- `vip_v4`.
unfoldable pub vip_of : IpAddr → Ipv4Addr
vip_of (v4 a) = a
vip_of (v6 a) = unspecified

-- The end of `process_one`: an answer to a packet that is too large, or the tunnel.
unfoldable pub send :
    RewriterThread → PacketBuf → IpAddr → IpAddr → ℕ → Checked (RewriterThread × ProcessResult)
unfolding should_generate_icmp generate_icmp_frag_needed allow encapsulate vip_of as_slice
send r output dst_ip backend_ip now = do
  slice ← as_slice output
  oversized ← should_generate_icmp slice r.mtu_config.network_mtu
  let (limiter, allowed) = allow r.icmp_rate_limiter now
  if not oversized
      then (do result ← encapsulate output r.src_ip backend_ip; value (r, result))
      else if allowed
      then (do
        pkt ← generate_icmp_frag_needed slice (vip_of dst_ip) r.mtu_config.effective_inner_mtu
        value (record r { icmp_rate_limiter = limiter }, icmp pkt))
      else value (record r { icmp_rate_limiter = limiter }, oversized_rate_limited)

-- `clamp_mss` on `output.as_mut_slice()`, the bytes in use.
unfoldable pub clamp_output : RewriterThread → PacketBuf → Checked (RewriterThread × PacketBuf)
unfolding clamp_mss count_clamp as_slice
clamp_output r input = do
  slice ← as_slice input
  (written, result) ← clamp_mss slice r.mtu_config.tcp_mss_clamp
  value (
    record r { metrics = count_clamp result r.metrics },
    record input { bytes = overwrite input.bytes 0 written },
  )

-- The packets that belong to a pool, from the selection of a backend on.
unfoldable pub route :
    Hasher
    → (IpAddr → Option HealthStatus)
    → RewriterThread
    → PacketBuf
    → PacketBuf
    → PacketMeta
    → LookupTable
    → ℕ
    → Checked (RewriterThread × ProcessResult)
unfolding choose_backend transitions record_fragment send initial_tcp_state flow_hash flow_proto
route hasher health r input output meta table now = do
  let hash = flow_hash hasher meta
  (chosen, backend_ip) ←
      choose_backend health r table hash (flow_proto meta.protocol)
        (initial_tcp_state meta.tcp_flags) now
  let moved = transitions chosen hash meta.tcp_flags now
  noted ← record_fragment hasher moved input backend_ip now
  send noted output meta.dst_ip backend_ip now

unfoldable pub process_one :
    Hasher
    → (IpAddr → Option HealthStatus)
    → VipMatcher
    → List (BackendPoolId × LookupTable)
    → RewriterThread
    → PacketBuf
    → ℕ
    → Checked (RewriterThread × ProcessResult)
unfolding forward_fragment clamp_output route match_packet from_ipv4_bytes is_non_first_fragment
    as_slice
process_one hasher health vip_matcher lookup_tables r input now = do
  slice ← as_slice input
  later_fragment ← is_non_first_fragment slice
  if later_fragment then forward_fragment hasher r input now else (do
    parsed ← from_ipv4_bytes slice
    elim parsed [
      | none ↦ value (r, dropped)
      | some meta ↦ elim (match_packet vip_matcher meta.dst_ip meta.protocol meta.dst_port) [
        | none ↦ value (r, dropped)
        | some pool_id ↦ do
          (clamped_r, output) ← clamp_output r input
          elim (lookup Bytes-discrete pool_id lookup_tables) [
            | none ↦ value (clamped_r, dropped)
            | some table ↦ route hasher health clamped_r input output meta table now
          ]
      ]
    ])
