-- ===== src/Forwarder/VipMatcher.antt =====
-- crates/lb-forwarder/src/vip_matcher.rs and steering.rs: the pool of a packet's destination, and
-- the queue of its flow.
use lb.Prelude.Checked.{Checked, value, panic}
use lb.Prelude.Maps.{insert}
use lb.Hashing.Permutation.{Hasher}
pub mod Laws
mod Tests
use lb.Types.Packet.{Protocol, Protocol-discrete, PacketMeta}
use lb.Types.Packet.Buffer.{flow_hash}
use lb.Types.Backend.{BackendPoolId}
use lb.Types.Net.{IpAddr-discrete, IpAddr, Bytes}
use lb.Prelude.{List, Option, [], if◌then◌else◌, lookup, ℕ, ℕ_discrete, ◌%◌, ◌==◌, ◌∷◌}

pub record VipKey : Type 0 where
  pub ip : IpAddr
  pub protocol : Protocol
  pub port : ℕ

unfoldable pub VipKey-discrete : Discrete VipKey
unfolding IpAddr-discrete Protocol-discrete
VipKey-discrete = hlevel (ℕ_discrete, IpAddr-discrete, Protocol-discrete)

-- `VipMatcher`, by its field `table`.
abbrev pub VipMatcher : Type 0
VipMatcher = List (VipKey × BackendPoolId)

-- An entry of the argument of `from_entries`.
pub record VipEntry : Type 0 where
  pub key : VipKey
  pub pool_id : BackendPoolId

unfoldable pub new : VipMatcher
new = []

-- The loop of `from_entries`, over the table that it has built so far.
unfoldable pub insert_entries : VipMatcher → List VipEntry → VipMatcher
unfolding insert
insert_entries table [] = table
insert_entries table (e ∷ entries) =
    insert_entries (insert VipKey-discrete e.key e.pool_id table) entries

unfoldable pub from_entries : List VipEntry → VipMatcher
unfolding insert_entries new
from_entries entries = insert_entries new entries

unfoldable pub match_packet : VipMatcher → IpAddr → Protocol → ℕ → Option BackendPoolId
unfolding lookup
match_packet table dst_ip protocol dst_port =
    lookup VipKey-discrete (record { ip = dst_ip; protocol = protocol; port = dst_port }) table

-- `assign_queue` of steering.rs; `%` panics on 0 queues.
unfoldable pub assign_queue : Hasher → PacketMeta → ℕ → Checked ℕ
unfolding flow_hash
assign_queue hasher meta num_queues =
    if num_queues == 0 then panic else value (flow_hash hasher meta % num_queues)
