-- ===== src/Forwarder/Threading/Worker.antt =====
-- crates/lb-forwarder/src/threading.rs: what `run_rewriter` does with one frame, up to the queues.
-- Its tables and metrics are those of `RewriterThread`, whose MTU fields are not used here, and the
-- code repeats that thread's handling of flows and fragments.
use lb.Prelude.{Bool, List, Option, false, if◌then◌else◌, lookup, none, some, true, ℕ, ◌+◌}
use lb.Prelude.Checked.{Checked, value, ◌>>=◌}
use lb.Types.Net.{IpAddr, v4, v6, Ipv4Addr, Bytes-discrete}
use lb.Types.Backend.{HealthStatus, BackendPoolId}
use lb.Types.Packet.{
  flow_proto, fragment_id, from_ipv4_bytes, is_non_first_fragment, PacketMeta, FragmentId,
}
use lb.Types.Packet.Buffer.{flow_hash, fragment_hash}
use lb.Hashing.Permutation.{Hasher}
use lb.Hashing.Table.{LookupTable}
use lb.Forwarder.PacketBuf.{PacketBuf, as_slice}
use lb.Forwarder.VipMatcher.{match_packet, VipMatcher}
use lb.Forwarder.FragmentTable
use lb.Forwarder.Gre.{encapsulate_ipv4}
use lb.Forwarder.Rewriter.Steps.{
  choose_backend, initial_tcp_state, record_fragment, RewriterThread, transitions,
}
pub mod Counters
pub mod Sizes

unfoldable pub count_dropped : RewriterThread → RewriterThread
count_dropped w =
    let m = w.metrics in record w { metrics = record m { packets_dropped = m.packets_dropped + 1 } }

unfoldable pub count_forwarded : RewriterThread → RewriterThread
count_forwarded w =
    let m = w.metrics in
    record w { metrics = record m { packets_forwarded = m.packets_forwarded + 1 } }

unfoldable pub count_no_mapping : RewriterThread → RewriterThread
unfolding count_dropped
count_no_mapping w =
    let m = w.metrics in
    count_dropped (record w {
      metrics = record m { fragment_drop_no_mapping_total = m.fragment_drop_no_mapping_total + 1 };
    })

unfoldable pub count_subsequent : RewriterThread → RewriterThread
unfolding count_forwarded
count_subsequent w =
    let m = w.metrics in
    count_forwarded (record w {
      metrics = record m {
        fragment_subsequent_forwarded_total = m.fragment_subsequent_forwarded_total + 1;
      };
    })

-- The worker, the frame, and whether the frame goes on to the TX queue.
abbrev pub Verdict : Type 0
Verdict = RewriterThread × PacketBuf × Bool

-- `encapsulate_ipv4_buf` in place, for a backend that must be IPv4; `count` is for the case that
-- the frame goes on.
unfoldable pub tunnel :
    (RewriterThread → RewriterThread)
    → RewriterThread
    → PacketBuf
    → Ipv4Addr
    → IpAddr
    → Checked Verdict
unfolding count_dropped encapsulate_ipv4
tunnel count w frame src_ipv4 (v6 ip) = value (count_dropped w, frame, false)
tunnel count w frame src_ipv4 (v4 dst_ipv4) = do
  (pkt, fits) ← encapsulate_ipv4 frame src_ipv4 dst_ipv4
  value (if fits then (count w, pkt, true) else (count_dropped w, pkt, false))

unfoldable pub mapped_backend : Hasher → RewriterThread → Option FragmentId → ℕ → Option IpAddr
unfolding fragment_hash FragmentTable.get
mapped_backend hasher w none now = none
mapped_backend hasher w (some fid) now =
    FragmentTable.get w.fragment_table (fragment_hash hasher fid) now

unfoldable pub later_fragment_frame :
    Hasher → RewriterThread → PacketBuf → Ipv4Addr → ℕ → Checked Verdict
unfolding mapped_backend count_no_mapping count_subsequent tunnel as_slice
later_fragment_frame hasher w frame src_ipv4 now = do
  slice ← as_slice frame
  fid ← fragment_id slice
  elim (mapped_backend hasher w fid now) [
    | none ↦ value (count_no_mapping w, frame, false)
    | some backend_ip ↦ tunnel count_subsequent w frame src_ipv4 backend_ip
  ]

-- From the lookup table on.
unfoldable pub route_frame :
    Hasher
    → (IpAddr → Option HealthStatus)
    → RewriterThread
    → PacketBuf
    → Ipv4Addr
    → PacketMeta
    → LookupTable
    → ℕ
    → Checked Verdict
unfolding choose_backend transitions record_fragment tunnel count_forwarded flow_hash flow_proto
    initial_tcp_state
route_frame hasher health w frame src_ipv4 meta table now = do
  let hash = flow_hash hasher meta
  (chosen, backend_ip) ←
      choose_backend health w table hash (flow_proto meta.protocol)
        (initial_tcp_state meta.tcp_flags) now
  noted ← record_fragment hasher (transitions chosen hash meta.tcp_flags now) frame backend_ip now
  tunnel count_forwarded noted frame src_ipv4 backend_ip

unfoldable pub process_frame :
    Hasher
    → (IpAddr → Option HealthStatus)
    → VipMatcher
    → List (BackendPoolId × LookupTable)
    → RewriterThread
    → PacketBuf
    → Ipv4Addr
    → ℕ
    → Checked Verdict
unfolding later_fragment_frame route_frame count_dropped match_packet is_non_first_fragment
    from_ipv4_bytes as_slice
process_frame hasher health vip_matcher lookup_tables w frame src_ipv4 now = do
  let m = w.metrics
  let received = record w { metrics = record m { packets_received = m.packets_received + 1 } }
  slice ← as_slice frame
  later_fragment ← is_non_first_fragment slice
  if later_fragment then later_fragment_frame hasher received frame src_ipv4 now else (do
    parsed ← from_ipv4_bytes slice
    elim parsed [
      | none ↦ value (count_dropped received, frame, false)
      | some meta ↦ elim (match_packet vip_matcher meta.dst_ip meta.protocol meta.dst_port) [
        | none ↦ value (count_dropped received, frame, false)
        | some pool_id ↦ elim (lookup Bytes-discrete pool_id lookup_tables) [
          | none ↦ value (count_dropped received, frame, false)
          | some table ↦ route_frame hasher health received frame src_ipv4 meta table now
        ]
      ]
    ])
