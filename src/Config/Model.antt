-- ===== src/Config/Model.antt =====
-- crates/lb-types/src/vip.rs and `LbConfig` of crates/lb-config-manager/src/loader.rs.
use lb.Types.Packet.{Protocol}
use lb.Types.Net.{Bytes, IpAddr}
use lb.Types.Backend.{BackendPool}
use lb.Prelude.{List, ℕ}

pub record VipService : Type 0 where
  pub protocol : Protocol
  pub port : ℕ
  pub backend_pool : Bytes

-- `VipId(String)` is its text.
pub record Vip : Type 0 where
  pub id : Bytes
  pub address : IpAddr
  pub services : List VipService
  pub owner : Bytes
  pub description : Bytes

pub record LbConfig : Type 0 where
  pub vips : List Vip
  pub pools : List BackendPool
