-- ===== src/Config/Applier.antt =====
-- crates/lb-config-manager/src/applier.rs: lookup tables from a configuration and the health of its
-- backends. The map of health is given by its `get`; the shared map of tables is a value that is
-- replaced.
use lb.Config.Model.{LbConfig}
use lb.Hashing.Permutation.{Hasher}
use lb.Types.Net.{Bytes-discrete, IpAddr, Bytes, IpAddr-discrete}
use lb.Prelude.{Bool, List, Option, [], false, if◌then◌else◌, lookup, none, some, true, ℕ, ◌∷◌}
use lb.Prelude.Checked.{Checked, value, panic, ◌>>=◌}
use lb.Prelude.Maps.{insert, extend}
use lb.Config.Validator.{contains}
use lb.Hashing.Table.{build, built, panics, spins, no_backends, Outcome, LookupTable}
use lb.Types.Backend.{
  HealthStatus, unhealthy, healthy, unknown, BackendPoolId, BackendPool, Backend,
}
pub mod Laws
mod Tests

abbrev pub Health : Type 0
Health = IpAddr → Option HealthStatus

abbrev pub LookupTables : Type 0
LookupTables = List (BackendPoolId × LookupTable)

-- A backend that no probe has judged counts as healthy.
unfoldable pub is_healthy : Option HealthStatus → Bool
is_healthy none = true
is_healthy (some unhealthy) = false
is_healthy (some healthy) = true
is_healthy (some unknown) = true

unfoldable pub is_usable : Health → Backend → Bool
unfolding is_healthy
is_usable health b = if b.drain then false else is_healthy (health b.ip)

-- `active_backends`.
unfoldable pub usable : Health → List Backend → List Backend
unfolding is_usable
usable health [] = []
usable health (b ∷ bs) = if is_usable health b then b ∷ usable health bs else usable health bs

-- With no usable backend, all of them.
unfoldable pub backends_for : Health → List Backend → List Backend
unfolding usable
backends_for health backends = elim (usable health backends) [ [] ↦ backends | b ∷ bs ↦ b ∷ bs ]

module _ (hasher : Hasher) (display : IpAddr → Bytes) where
  unfoldable pub pool_table : Health → BackendPool → ℕ → Outcome
  unfolding build backends_for
  pool_table health pool table_size =
      build hasher display (backends_for health pool.backends) table_size

  -- A build that fails leaves the pool out; one that does not return is a panic here.
  unfoldable pub insert_table : BackendPoolId → Outcome → LookupTables → Checked LookupTables
  unfolding insert
  insert_table id (built t) tables = value (insert Bytes-discrete id t tables)
  insert_table id no_backends tables = value tables
  insert_table id panics tables = panic
  insert_table id spins tables = panic

  -- The loop over the pools.
  unfoldable pub insert_tables : Health → ℕ → List BackendPool → LookupTables → Checked LookupTables
  unfolding insert_table pool_table
  insert_tables health table_size [] tables = value tables
  insert_tables health table_size (pool ∷ pools) tables =
      insert_table pool.id (pool_table health pool table_size) tables
      >>= insert_tables health table_size pools

  unfoldable pub build_lookup_tables_for_pools :
      List BackendPool → Health → ℕ → Checked LookupTables
  unfolding insert_tables
  build_lookup_tables_for_pools pools health table_size = insert_tables health table_size pools []

  unfoldable pub build_lookup_tables : LbConfig → Health → ℕ → Checked LookupTables
  unfolding build_lookup_tables_for_pools
  build_lookup_tables config health table_size =
      build_lookup_tables_for_pools config.pools health table_size

-- `HashSet::insert`.
unfoldable pub insert_id : BackendPoolId → List BackendPoolId → List BackendPoolId
unfolding contains
insert_id id ids = if contains id ids then ids else id ∷ ids

abbrev pub PoolIndex : Type 0
PoolIndex = List (IpAddr × List BackendPoolId)

-- `index.entry(ip).or_default().insert(id)`.
unfoldable pub index_backend : BackendPoolId → IpAddr → PoolIndex → PoolIndex
unfolding insert insert_id lookup
index_backend id ip index =
    insert IpAddr-discrete ip
      (insert_id id (elim (lookup IpAddr-discrete ip index) [ none ↦ [] | some ids ↦ ids ])) index

unfoldable pub index_backends : BackendPoolId → List Backend → PoolIndex → PoolIndex
unfolding index_backend
index_backends id [] index = index
index_backends id (b ∷ bs) index = index_backends id bs (index_backend id b.ip index)

unfoldable pub index_pools : List BackendPool → PoolIndex → PoolIndex
unfolding index_backends
index_pools [] index = index
index_pools (pool ∷ pools) index = index_pools pools (index_backends pool.id pool.backends index)

unfoldable pub build_backend_pool_index : LbConfig → PoolIndex
unfolding index_pools
build_backend_pool_index config = index_pools config.pools []

-- The new value of the shared map.
unfoldable pub apply_tables : LookupTables → LookupTables → LookupTables
unfolding extend
apply_tables updates shared = extend Bytes-discrete shared updates

unfoldable pub replace_tables : LookupTables → LookupTables → LookupTables
replace_tables new_tables shared = new_tables
