-- ===== src/Types/Ttls.antt =====
-- `ConnTtls` of crates/lb-types/src/config.rs: how long the connection table keeps a flow.
use lb.Prelude.{Option, none, some, ℕ, ◌*◌}

-- A `Duration` is a number of nanoseconds.
abbrev pub second : ℕ
second = 1_000_000_000

pub record ConnTtls : Type 0 where
  pub tcp_handshake : ℕ
  pub tcp_established : ℕ
  pub tcp_closing : ℕ
  pub udp : ℕ
  pub other : ℕ

unfoldable pub with_established : ℕ → ConnTtls
with_established established = record {
  tcp_handshake = 5 * second;
  tcp_established = established;
  tcp_closing = 10 * second;
  udp = 30 * second;
  other = 30 * second;
}

-- The view in which every field is optional.
pub record ConnTtlsConfig : Type 0 where
  pub tcp_handshake : Option ℕ
  pub tcp_established : Option ℕ
  pub tcp_closing : Option ℕ
  pub udp : Option ℕ
  pub other : Option ℕ

unwrap_or : Option ℕ → ℕ → ℕ
unwrap_or none d = d
unwrap_or (some x) d = x

-- `ForwarderConfig::resolved_conn_ttls`, over the two fields that it reads.
unfoldable pub resolved_conn_ttls : ℕ → Option ConnTtlsConfig → ConnTtls
unfolding unwrap_or with_established
resolved_conn_ttls connection_ttl none = with_established connection_ttl
resolved_conn_ttls connection_ttl (some c) =
    let defaults = with_established connection_ttl in
    record {
      tcp_handshake = unwrap_or c.tcp_handshake defaults.tcp_handshake;
      tcp_established = unwrap_or c.tcp_established defaults.tcp_established;
      tcp_closing = unwrap_or c.tcp_closing defaults.tcp_closing;
      udp = unwrap_or c.udp defaults.udp;
      other = unwrap_or c.other defaults.other;
    }
