-- ===== src/Types/Mtu.antt =====
-- crates/lb-types/src/mtu.rs: the tunnel's parameters, derived from the MTU of the link.
use lb.Prelude.{if◌then◌else◌, ltb, ℕ, ◌-◌}

abbrev pub gre_overhead : ℕ
gre_overhead = 24

abbrev pub ip_tcp_header_size : ℕ
ip_tcp_header_size = 40

abbrev pub min_mss : ℕ
min_mss = 536

pub record MtuConfig : Type 0 where
  pub network_mtu : ℕ
  pub effective_inner_mtu : ℕ
  pub tcp_mss_clamp : ℕ

-- The two messages of `LbError::Config`.
pub data MtuError : Type 0 where
  below_minimum : ℕ → MtuError
  mss_too_small : ℕ → MtuError

pub data MtuResult : Type 0 where
  valid : MtuConfig → MtuResult
  invalid : MtuError → MtuResult

-- `MtuConfig::new`; the differences are above 0 where they are computed.
unfoldable pub new : ℕ → MtuResult
new network_mtu =
    if ltb network_mtu 1280
    then invalid (below_minimum network_mtu)
    else (let effective_inner_mtu = network_mtu - gre_overhead in
        let tcp_mss_clamp = effective_inner_mtu - ip_tcp_header_size in
        if ltb tcp_mss_clamp min_mss
        then invalid (mss_too_small tcp_mss_clamp)
        else valid (record {
          network_mtu = network_mtu;
          effective_inner_mtu = effective_inner_mtu;
          tcp_mss_clamp = tcp_mss_clamp;
        }))
