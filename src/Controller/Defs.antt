-- ===== src/Controller/Defs.antt =====
-- `Controller` and its operations. The health map, a concurrent map of another crate, is a
-- parameter; the calls of the BGP speaker are collected as commands, in their order; `now` stands
-- for the clock, in nanoseconds. Saving the configuration to a file is left out.
use lb.Prelude.Maps.{insert}
use lb.Prelude.Checked.{Checked, value, ◌>>=◌}
use lb.Config.Validator.{contains}
use lb.Controller.VipSet.{insert_vip, difference}
use lb.Config.Model.{LbConfig, VipService, Vip}
use lb.Config.Applier.{
  LookupTables, PoolIndex, build_lookup_tables_for_pools, insert_id, build_lookup_tables,
  is_healthy, replace_tables, apply_tables, build_backend_pool_index,
}
use lb.Types.Backend.{HealthStatus, BackendPoolId, BackendPool, Backend}
use lb.Hashing.Permutation.{Hasher}
use lb.Types.Net.{Ipv4Addr, IpAddr, Bytes, IpAddr-discrete, Bytes-discrete, v6, v4}
use lb.Prelude.{
  Bool, List, Option, [], some, ℕ, ◌∷◌, ◌≡◌, ◌≢◌, false, if◌then◌else◌, leb, lookup, none, not,
  true, ◌++◌, ◌-◌, ◌||◌,
}

-- What is used of `DashMap<IpAddr, HealthStatus>`.
pub record StatusMap : Type 1 where
  pub Map : Type 0
  pub get : Map → IpAddr → Option HealthStatus
  pub insert : Map → IpAddr → HealthStatus → Map
  pub get-insert : (m : Map) (ip : IpAddr) (s : HealthStatus) → get (insert m ip s) ip ≡ some s
  pub get-insert_ne :
      (m : Map) (ip q : IpAddr) (s : HealthStatus) → q ≢ ip → get (insert m ip s) q ≡ get m q

-- The calls of `BgpAnnouncer`.
pub data Command : Type 0 where
  announce withdraw : List Ipv4Addr → Command

-- `if !vips.is_empty() { … }`.
unfoldable pub unless_empty : (List Ipv4Addr → Command) → List Ipv4Addr → List Command
unless_empty call [] = []
unless_empty call (v ∷ vs) = call (v ∷ vs) ∷ []

abbrev pub debounce_window : ℕ
debounce_window = 50000000

module _ (dash : StatusMap) where
  pub record Controller : Type 0 where
    pub lookup_tables : LookupTables
    pub health_status : dash.Map
    pub config : Option LbConfig
    pub backend_pool_index : PoolIndex
    pub pending_pools : List BackendPoolId
    pub pending_since : Option ℕ
    pub table_size : ℕ
    pub bgp : Bool
    pub vips_announced : List Ipv4Addr

  unfoldable pub new : LookupTables → dash.Map → ℕ → Controller
  new lookup_tables health_status table_size = record {
    lookup_tables = lookup_tables;
    health_status = health_status;
    config = none;
    backend_pool_index = [];
    pending_pools = [];
    pending_since = none;
    table_size = table_size;
    bgp = false;
    vips_announced = [];
  }

  unfoldable pub with_bgp : Controller → Controller
  with_bgp c = record c { bgp = true }

  unfoldable pub reannounce_all : Controller → List Command
  unfolding unless_empty
  reannounce_all c = if c.bgp then unless_empty announce c.vips_announced else []

  unfoldable pub withdraw_all : Controller → Controller × List Command
  unfolding unless_empty
  withdraw_all c = (
    record c { vips_announced = [] },
    if c.bgp then unless_empty withdraw c.vips_announced else [],
  )

  -- `any_healthy`, by the source's default for a backend without a verdict.
  unfoldable pub any_healthy : (IpAddr → Option HealthStatus) → List Backend → Bool
  unfolding is_healthy
  any_healthy health [] = false
  any_healthy health (b ∷ bs) = is_healthy (health b.ip) || any_healthy health bs

  -- The loop that fills `pool_healthy`.
  unfoldable pub pool_health :
      (IpAddr → Option HealthStatus)
      → List BackendPool
      → List (BackendPoolId × Bool)
      → List (BackendPoolId × Bool)
  unfolding insert any_healthy
  pool_health health [] acc = acc
  pool_health health (pool ∷ pools) acc =
      pool_health health pools
        (insert Bytes-discrete pool.id (any_healthy health pool.backends) acc)

  unfoldable pub any_service_healthy : List (BackendPoolId × Bool) → List VipService → Bool
  unfolding lookup
  any_service_healthy healthy_pools [] = false
  any_service_healthy healthy_pools (svc ∷ services) =
      let rest = any_service_healthy healthy_pools services in
      elim (lookup Bytes-discrete svc.backend_pool healthy_pools) [
        | none ↦ rest
        | some b ↦ b || rest
      ]

  -- The loop over the VIPs; only IPv4 addresses are announced.
  unfoldable pub healthy_vips :
      List (BackendPoolId × Bool) → List Vip → List Ipv4Addr → List Ipv4Addr
  unfolding any_service_healthy insert_vip
  healthy_vips healthy_pools [] out = out
  healthy_vips healthy_pools (vip ∷ vips) out = elim vip.address [
    | v6 ip ↦ healthy_vips healthy_pools vips out
    | v4 ip ↦
        if any_service_healthy healthy_pools vip.services
        then healthy_vips healthy_pools vips (insert_vip ip out)
        else healthy_vips healthy_pools vips out
  ]

  unfoldable pub desired_vips : (IpAddr → Option HealthStatus) → Option LbConfig → List Ipv4Addr
  unfolding healthy_vips pool_health
  desired_vips health none = []
  desired_vips health (some config) =
      healthy_vips (pool_health health config.pools []) config.vips []

  unfoldable pub desired_announced_vips : Controller → List Ipv4Addr
  unfolding desired_vips
  desired_announced_vips c = desired_vips (dash.get c.health_status) c.config

  unfoldable pub sync_bgp_announcements : Controller → Controller × List Command
  unfolding desired_announced_vips difference unless_empty
  sync_bgp_announcements c =
      if not c.bgp
      then (c, [])
      else (let desired = desired_announced_vips c in
          (
            record c { vips_announced = desired },
            unless_empty announce (difference desired c.vips_announced)
                ++ unless_empty withdraw (difference c.vips_announced desired),
          ))

  module _ (hasher : Hasher) (display : IpAddr → Bytes) where
    unfoldable pub apply_config : Controller → LbConfig → Checked (Controller × List Command)
    unfolding build_lookup_tables replace_tables build_backend_pool_index sync_bgp_announcements
    apply_config c config = do
      new_tables ← build_lookup_tables hasher display config (dash.get c.health_status) c.table_size
      value (
          sync_bgp_announcements (record c {
            pending_pools = [];
            pending_since = none;
            lookup_tables = replace_tables new_tables c.lookup_tables;
            backend_pool_index = build_backend_pool_index config;
            config = some config;
          }))

    unfoldable pub affected : List BackendPoolId → List BackendPool → List BackendPool
    unfolding contains
    affected pending [] = []
    affected pending (pool ∷ pools) =
        if contains pool.id pending then pool ∷ affected pending pools else affected pending pools

    -- The tables after a flush; with no pool affected they stay as they are.
    unfoldable pub flushed_tables : Controller → LbConfig → Checked LookupTables
    unfolding affected build_lookup_tables_for_pools apply_tables
    flushed_tables c config = elim (affected c.pending_pools config.pools) [
      | [] ↦ value c.lookup_tables
      | pool ∷ pools ↦ do
        new_tables ←
            build_lookup_tables_for_pools hasher display (pool ∷ pools) (dash.get c.health_status)
              c.table_size
        value (apply_tables new_tables c.lookup_tables)
    ]

    -- With no pending pool, and with no configuration, only the pending state is reset.
    unfoldable pub flush : Controller → Checked Controller
    unfolding flushed_tables
    flush c = elim c.pending_pools [
      | [] ↦ value (record c { pending_since = none })
      | id ∷ ids ↦ elim c.config [
        | none ↦ value (record c { pending_pools = []; pending_since = none })
        | some config ↦ do
          tables ← flushed_tables c config
          value (record c { lookup_tables = tables; pending_pools = []; pending_since = none })
      ]
    ]

    unfoldable pub maybe_flush : Controller → ℕ → Checked Controller
    unfolding flush
    maybe_flush c now = elim c.pending_since [
      | none ↦ value c
      | some since ↦ if leb debounce_window (now - since) then flush c else value c
    ]

    unfoldable pub tick : Controller → ℕ → Checked Controller
    unfolding maybe_flush
    tick c now = maybe_flush c now

    unfoldable pub flush_pending : Controller → Checked Controller
    unfolding flush
    flush_pending c = flush c

  unfoldable pub has_pending_rebuilds : Controller → Bool
  has_pending_rebuilds c = elim c.pending_since [ none ↦ false | some since ↦ true ]

  -- `pending_pools.extend(pool_ids)`.
  unfoldable pub extend_ids : List BackendPoolId → List BackendPoolId → List BackendPoolId
  unfolding insert_id
  extend_ids pending [] = pending
  extend_ids pending (id ∷ ids) = extend_ids (insert_id id pending) ids

  unfoldable pub mark_pending : Controller → IpAddr → ℕ → Controller
  unfolding lookup extend_ids
  mark_pending c backend_ip now = elim (lookup IpAddr-discrete backend_ip c.backend_pool_index) [
    | none ↦ c
    | some pool_ids ↦ record c {
      pending_pools = extend_ids c.pending_pools pool_ids;
      pending_since = elim c.pending_since [ none ↦ some now | some since ↦ some since ];
    }
  ]

  module _ (hasher : Hasher) (display : IpAddr → Bytes) where
    unfoldable pub on_health_change :
        Controller → IpAddr → HealthStatus → ℕ → Checked (Controller × List Command)
    unfolding mark_pending sync_bgp_announcements maybe_flush
    on_health_change c backend_ip status now =
        let stored = record c { health_status = dash.insert c.health_status backend_ip status } in
        let (synced, commands) = sync_bgp_announcements (mark_pending stored backend_ip now) in
        do flushed ← maybe_flush hasher display synced now; value (flushed, commands)
