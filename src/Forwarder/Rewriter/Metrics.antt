-- ===== src/Forwarder/Rewriter/Metrics.antt =====
-- The counters of `ForwarderMetrics` (crates/lb-metrics/src/forwarder_metrics.rs) that the rewriter
-- raises; a counter has no bound here.
use lb.Prelude.{ℕ}

pub record ForwarderMetrics : Type 0 where
  pub packets_received : ℕ
  pub packets_forwarded : ℕ
  pub packets_dropped : ℕ
  pub conn_table_hits : ℕ
  pub conn_table_misses : ℕ
  pub conn_table_size : ℕ
  pub conn_table_inserts_total : ℕ
  pub eviction_expired_on_insert : ℕ
  pub eviction_dropped_full : ℕ
  pub tcp_transition_established : ℕ
  pub tcp_transition_closing_fin : ℕ
  pub tcp_transition_closing_rst : ℕ
  pub conn_table_fallback_to_maglev_total : ℕ
  pub conn_table_fill_bp : ℕ
  pub mss_clamp_total : ℕ
  pub mss_clamp_noop_total : ℕ
  pub mss_clamp_missing_total : ℕ
  pub icmp_frag_needed_sent_total : ℕ
  pub icmp_frag_needed_ratelimited_total : ℕ
  pub packets_oversized_dropped_total : ℕ
  pub fragment_first_total : ℕ
  pub fragment_subsequent_forwarded_total : ℕ
  pub fragment_drop_no_mapping_total : ℕ
