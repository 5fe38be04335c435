-- ===== src/Forwarder/Rewriter/Batch.antt =====
-- `process_batch`: the packets are rewritten in place, and those that go out are moved to the front.
use lb.Hashing.Table.{LookupTable}
use lb.Forwarder.VipMatcher.{VipMatcher}
use lb.Types.Backend.{HealthStatus, BackendPoolId}
use lb.Types.Net.{IpAddr}
use lb.Hashing.Permutation.{Hasher}
use lb.Forwarder.PacketBuf.{PacketBuf}
use lb.Forwarder.Rewriter.Metrics.{ForwarderMetrics}
use lb.Prelude.{List, Option, [], length, none, set, some, suc, zero, ℕ, ◌+◌, ◌∷◌}
use lb.Forwarder.ConnTable.Defs.{len, fill_bp}
use lb.Prelude.Checked.{Checked, value, ◌>>=◌, index}
use lb.Forwarder.Rewriter.Steps.{
  RewriterThread, ProcessResult, forwarded, icmp, oversized_rate_limited, dropped, process_one,
}

-- The counters that `process_batch` raises for a packet.
unfoldable pub count_result : ProcessResult → ForwarderMetrics → ForwarderMetrics
count_result (forwarded pkt) m = record m { packets_forwarded = m.packets_forwarded + 1 }
count_result (icmp pkt) m = record m {
  icmp_frag_needed_sent_total = m.icmp_frag_needed_sent_total + 1;
  packets_oversized_dropped_total = m.packets_oversized_dropped_total + 1;
}
count_result oversized_rate_limited m = record m {
  icmp_frag_needed_ratelimited_total = m.icmp_frag_needed_ratelimited_total + 1;
  packets_oversized_dropped_total = m.packets_oversized_dropped_total + 1;
  packets_dropped = m.packets_dropped + 1;
}
count_result dropped m = record m { packets_dropped = m.packets_dropped + 1 }

-- The packet that goes out.
unfoldable pub outgoing : ProcessResult → Option PacketBuf
outgoing (forwarded pkt) = some pkt
outgoing (icmp pkt) = some pkt
outgoing oversized_rate_limited = none
outgoing dropped = none

unfoldable pub count_received : RewriterThread → RewriterThread
count_received r =
    let m = r.metrics in
    record r { metrics = record m { packets_received = m.packets_received + 1 } }

abbrev pub counted : RewriterThread → ProcessResult → RewriterThread
counted r result = record r { metrics = count_result result r.metrics }

-- The loop, over the slice `packets`, for `n` more packets from `read_idx` on.
module _ (one : RewriterThread → PacketBuf → Checked (RewriterThread × ProcessResult)) where
  unfoldable pub batch_loop :
      ℕ → RewriterThread → List PacketBuf → ℕ → ℕ → Checked (RewriterThread × (List PacketBuf × ℕ))
  unfolding count_received count_result outgoing
  batch_loop zero r packets read_idx write_idx = value (r, (packets, write_idx))
  batch_loop (suc n) r packets read_idx write_idx =
      let next = batch_loop n in
      do
        packet ← index packets read_idx
        (moved, result) ← one (count_received r) packet
        elim (outgoing result) [
          | some pkt ↦
              next (counted moved result) (set packets write_idx pkt) (read_idx + 1) (write_idx + 1)
          | none ↦ next (counted moved result) packets (read_idx + 1) write_idx
        ]

-- The gauges that are set after a batch.
unfoldable pub set_gauges : RewriterThread → RewriterThread
unfolding len fill_bp
set_gauges r =
    let m = r.metrics in
    record r {
      metrics = record m {
        conn_table_size = len r.conn_table;
        conn_table_fill_bp = fill_bp r.conn_table;
      };
    }

unfoldable pub process_batch :
    Hasher
    → (IpAddr → Option HealthStatus)
    → VipMatcher
    → List (BackendPoolId × LookupTable)
    → RewriterThread
    → List PacketBuf
    → ℕ
    → Checked (RewriterThread × (List PacketBuf × ℕ))
unfolding batch_loop process_one set_gauges
process_batch hasher health vip_matcher lookup_tables r packets now = do
  (moved, left) ←
      batch_loop (λ t packet. process_one hasher health vip_matcher lookup_tables t packet now)
        (length packets) r packets 0 0
  value (set_gauges moved, left)

-- What the loop is for: the packets one after the other, and those that go out, in their order.
module _ (one : RewriterThread → PacketBuf → Checked (RewriterThread × ProcessResult)) where
  unfoldable pub emit : RewriterThread → List PacketBuf → Checked (RewriterThread × List PacketBuf)
  unfolding count_received count_result outgoing
  emit r [] = value (r, [])
  emit r (packet ∷ packets) = do
    (moved, result) ← one (count_received r) packet
    (last, out) ← emit (counted moved result) packets
    value (last, elim (outgoing result) [ some pkt ↦ pkt ∷ out | none ↦ out ])
