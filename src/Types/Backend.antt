-- ===== src/Types/Backend.antt =====
-- crates/lb-types/src/backend.rs: a backend server, a pool of them, and what a probe found out.
use lb.Prelude.{
  ℕ, ◌+◌, ◌/◌, ◌%◌, zero, suc, List, [], ◌∷◌, ◌++◌, Option, Bool, false, ltb, if◌then◌else◌,
}
use lb.Types.Net.{Bytes, IpAddr}

pub data HealthStatus : Type 0 where
  unknown healthy unhealthy : HealthStatus

unfoldable pub HealthStatus-discrete : Discrete HealthStatus
HealthStatus-discrete = hlevel

-- `BackendPoolId(String)`.
abbrev pub BackendPoolId : Type 0
BackendPoolId = Bytes

pub record Backend : Type 0 where
  pub ip : IpAddr
  pub port : ℕ
  pub weight : ℕ
  pub drain : Bool

unfoldable pub new : IpAddr → ℕ → Backend
new ip port = record { ip = ip; port = port; weight = 1; drain = false }

-- Decimal digits, with fuel: `{}` of an unsigned number of at most `fuel + 1` digits.
decimal : ℕ → ℕ → Bytes
decimal zero n = (n % 10 + b'0') ∷ []
decimal (suc f) n =
    let rest = decimal f (n / 10) in
    if ltb n 10 then (n % 10 + b'0') ∷ [] else rest ++ ((n % 10 + b'0') ∷ [])

-- `format!("{}:{}", self.ip, self.port)`, over the standard library's printer of addresses.
unfoldable pub name : (IpAddr → Bytes) → Backend → Bytes
unfolding decimal
name display b = display b.ip ++ (b':' ∷ decimal 4 b.port)

-- `HealthCheckConfig` of crates/lb-types/src/config.rs; a `Duration` is a number of nanoseconds.
pub record HealthCheckConfig : Type 0 where
  pub interval : ℕ
  pub timeout : ℕ
  pub healthy_threshold : ℕ
  pub unhealthy_threshold : ℕ

pub record BackendPool : Type 0 where
  pub id : BackendPoolId
  pub backends : List Backend
  pub health_check : Option HealthCheckConfig
