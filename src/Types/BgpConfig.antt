-- ===== src/Types/BgpConfig.antt =====
-- crates/lb-types/src/config.rs: the configuration of the BGP speaker. Raw fields come from the
-- reader of the file's format; the environment's variables are a function.
use lb.Prelude.{Bool, List, Option, [], none, some, true, ℕ, ◌∷◌}
use lb.Types.Net.{Bytes, IpAddr}
pub mod Laws
mod Tests

pub record BgpPeerConfig : Type 0 where
  pub peer_ip : IpAddr
  pub peer_asn : ℕ
  pub port : ℕ
  pub hold_time_secs : Option ℕ
  pub communities : Option (List Bytes)
  pub enabled : Bool
  pub md5_password : Option Bytes
  pub md5_password_env : Option Bytes

pub record BgpConfig : Type 0 where
  pub local_asn : ℕ
  pub router_id : IpAddr
  pub communities : List Bytes
  pub next_hop_self : Bool
  pub peers : List BgpPeerConfig

pub record BgpConfigRaw : Type 0 where
  pub local_asn : ℕ
  pub router_id : IpAddr
  pub communities : List Bytes
  pub next_hop_self : Bool
  pub peer_ip : Option IpAddr
  pub peer_asn : Option ℕ
  pub peers : Option (List BgpPeerConfig)

-- The errors, in the order of their messages in the code.
pub data PasswordError : Type 0 where
  mutually_exclusive env_var_empty env_var_not_set : PasswordError

pub data PasswordResult : Type 0 where
  password : Option Bytes → PasswordResult
  password_error : PasswordError → PasswordResult

-- `env::var(var)`, where `Err` is `none`.
unfoldable pub password_of_env : Option Bytes → PasswordResult
password_of_env (some (c ∷ cs)) = password (some (c ∷ cs))
password_of_env (some []) = password_error env_var_empty
password_of_env none = password_error env_var_not_set

unfoldable pub resolved_md5_password : (Bytes → Option Bytes) → BgpPeerConfig → PasswordResult
unfolding password_of_env
resolved_md5_password env_var peer = elim peer.md5_password [
  | some p ↦ elim peer.md5_password_env [
    | some _ ↦ password_error mutually_exclusive
    | none ↦ password (some p)
  ]
  | none ↦ elim peer.md5_password_env [
    | some var ↦ password_of_env (env_var var)
    | none ↦ password none
  ]
]

abbrev pub default_bgp_port : ℕ
default_bgp_port = 179

pub data BgpConfigError : Type 0 where
  both_forms empty_peers no_peers incomplete_legacy : BgpConfigError

pub data PeersResult : Type 0 where
  peers_of : List BgpPeerConfig → PeersResult
  peers_error : BgpConfigError → PeersResult

-- The peer of the legacy form.
unfoldable pub legacy_peer : IpAddr → ℕ → BgpPeerConfig
legacy_peer ip asn = record {
  peer_ip = ip;
  peer_asn = asn;
  port = default_bgp_port;
  hold_time_secs = none;
  communities = none;
  enabled = true;
  md5_password = none;
  md5_password_env = none;
}

unfoldable pub peers_of_raw : Option (List BgpPeerConfig) → Option IpAddr → Option ℕ → PeersResult
unfolding legacy_peer
peers_of_raw (some ps) (some _) _ = peers_error both_forms
peers_of_raw (some ps) none (some _) = peers_error both_forms
peers_of_raw (some []) none none = peers_error empty_peers
peers_of_raw (some (p ∷ ps)) none none = peers_of (p ∷ ps)
peers_of_raw none (some ip) (some asn) = peers_of (legacy_peer ip asn ∷ [])
peers_of_raw none none none = peers_error no_peers
peers_of_raw none (some _) none = peers_error incomplete_legacy
peers_of_raw none none (some _) = peers_error incomplete_legacy

pub data BgpConfigResult : Type 0 where
  config : BgpConfig → BgpConfigResult
  config_error : BgpConfigError → BgpConfigResult

unfoldable pub deserialize : BgpConfigRaw → BgpConfigResult
unfolding peers_of_raw
deserialize raw = elim (peers_of_raw raw.peers raw.peer_ip raw.peer_asn) [
  | peers_error e ↦ config_error e
  | peers_of ps ↦ config record {
    local_asn = raw.local_asn;
    router_id = raw.router_id;
    communities = raw.communities;
    next_hop_self = raw.next_hop_self;
    peers = ps;
  }
]
