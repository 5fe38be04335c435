-- ===== src/Forwarder/Rewriter/Sample.antt =====
-- A rewriter thread with empty tables, and a service with one backend, for tests.
use mathlib.Core.Path.{subst}
use lb.Hashing.Permutation.{Hasher}
use lb.Hashing.Table.{LookupTable}
use lb.Hashing.Build.{IsFull}
use mathlib.Core.Logic.{dite}
use lb.Types.Net.{v4, unspecified, Bytes-discrete}
use lb.Types.Backend.{Backend, BackendPoolId}
use lb.Types.Packet.{Protocol}
use lb.Forwarder.VipMatcher.{VipMatcher}
use lb.Prelude.{Option, [], none, refl, some, ◌∷◌, ◌≡◌, arith, lookup, false}
use lb.Types.Ttls.{ConnTtls}
use lb.Forwarder.Rewriter.Metrics.{ForwarderMetrics}
use lb.Forwarder.Rewriter.Steps.{RewriterThread}
use lb.Forwarder.ConnTable.Defs
use lb.Forwarder.FragmentTable
use lb.Forwarder.Icmp

abbrev pub zero_metrics : ForwarderMetrics
zero_metrics = record {
  packets_received = 0;
  packets_forwarded = 0;
  packets_dropped = 0;
  conn_table_hits = 0;
  conn_table_misses = 0;
  conn_table_size = 0;
  conn_table_inserts_total = 0;
  eviction_expired_on_insert = 0;
  eviction_dropped_full = 0;
  tcp_transition_established = 0;
  tcp_transition_closing_fin = 0;
  tcp_transition_closing_rst = 0;
  conn_table_fallback_to_maglev_total = 0;
  conn_table_fill_bp = 0;
  mss_clamp_total = 0;
  mss_clamp_noop_total = 0;
  mss_clamp_missing_total = 0;
  icmp_frag_needed_sent_total = 0;
  icmp_frag_needed_ratelimited_total = 0;
  packets_oversized_dropped_total = 0;
  fragment_first_total = 0;
  fragment_subsequent_forwarded_total = 0;
  fragment_drop_no_mapping_total = 0;
}

abbrev pub ttls : ConnTtls
ttls = record { tcp_handshake = 30; tcp_established = 300; tcp_closing = 10; udp = 60; other = 60 }

abbrev pub thread : RewriterThread
thread = record {
  src_ip = v4 (record { a = 10; b = 0; c = 0; d = 1 });
  conn_table = Defs.new 2 ttls 0;
  fragment_table = FragmentTable.new 2 10 0;
  metrics = zero_metrics;
  mtu_config = record { network_mtu = 1500; effective_inner_mtu = 1476; tcp_mss_clamp = 1436 };
  icmp_rate_limiter = Icmp.new 10 0;
}

abbrev pub seeded : Hasher
seeded = record {
  xxh3_64_with_seed = λ s seed. 17;
  xxh3_64 = λ s. 17;
  with_seed-lt = λ s seed. omega arith;
  xxh3-lt = λ s. omega arith;
}

abbrev backend : Backend
backend = record { ip = v4 unspecified; port = 443; weight = 1; drain = false }

-- One slot, and its backend.
abbrev pub small_table : LookupTable
small_table = record { entries = 0 ∷ []; backends = backend ∷ []; table_size = 1 }

abbrev pub web : BackendPoolId
web = 119 ∷ 101 ∷ 98 ∷ []

small_table-IsFull : IsFull small_table
small_table-IsFull = record {
  size = refl;
  size_pos = omega arith;
  owned = λ c h. let z : c ≡ 0 = omega arith in rw z (omega arith);
}

pub one_table :
    (id : BackendPoolId) (t : LookupTable)
    → lookup Bytes-discrete id ((web, small_table) ∷ []) ≡ some t
    → IsFull t
unfolding lookup
one_table id t = found (Bytes-discrete id web)
  where
    found :
        (d : Dec (id ≡ web))
        → dite {C = Option LookupTable} d (λ _. some small_table) (λ _. none) ≡ some t
        → IsFull t
    found (yes _) e = let same : small_table ≡ t = cc e in subst IsFull same small_table-IsFull
    found (no _) e = absurd (cc e)

abbrev pub matcher : VipMatcher
matcher = (record { ip = v4 unspecified; protocol = Protocol.tcp; port = 443 }, web) ∷ []
