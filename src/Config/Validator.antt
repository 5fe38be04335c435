-- ===== src/Config/Validator.antt =====
-- crates/lb-config-manager/src/validator.rs: what a configuration is refused for.
use lb.Types.Backend.{BackendPool}
use lb.Types.Net.{Bytes, Bytes-discrete}
use lb.Config.Model.{Vip, VipService}
use lb.Prelude.{Bool, List, [], false, if◌then◌else◌, lookup, none, some, true, ◌++◌, ◌∷◌}

-- The messages of `ValidationError`, by what they say.
pub data ConfigError : Type 0 where
  missing_pool : Bytes → Bytes → ConfigError
  empty_pool : Bytes → ConfigError
  duplicate_vip : Bytes → ConfigError

unfoldable pub dangling_services :
    List (Bytes × BackendPool) → Bytes → List VipService → List ConfigError
unfolding lookup
dangling_services pools vip [] = []
dangling_services pools vip (svc ∷ services) =
    let rest = dangling_services pools vip services in
    elim (lookup Bytes-discrete svc.backend_pool pools) [
      | none ↦ missing_pool vip svc.backend_pool ∷ rest
      | some pool ↦ rest
    ]

unfoldable pub dangling : List (Bytes × BackendPool) → List Vip → List ConfigError
unfolding dangling_services
dangling pools [] = []
dangling pools (vip ∷ vips) = dangling_services pools vip.id vip.services ++ dangling pools vips

-- The pools in the map's order of iteration.
unfoldable pub empty_pools : List (Bytes × BackendPool) → List ConfigError
empty_pools [] = []
empty_pools ((id, pool) ∷ pools) = elim pool.backends [
  | [] ↦ empty_pool id ∷ empty_pools pools
  | b ∷ bs ↦ empty_pools pools
]

unfoldable pub contains : Bytes → List Bytes → Bool
contains x [] = false
contains x (y ∷ ys) =
    let rest = contains x ys in elim (Bytes-discrete x y) [ yes _ ↦ true | no _ ↦ rest ]

-- The loop over `seen_vips`.
unfoldable pub duplicates : List Bytes → List Vip → List ConfigError
unfolding contains
duplicates seen_vips [] = []
duplicates seen_vips (vip ∷ vips) =
    if contains vip.id seen_vips
    then duplicate_vip vip.id ∷ duplicates seen_vips vips
    else duplicates (vip.id ∷ seen_vips) vips

-- The errors; `Ok` is the empty list.
unfoldable pub validate : List Vip → List (Bytes × BackendPool) → List ConfigError
unfolding dangling empty_pools duplicates
validate vips pools = dangling pools vips ++ (empty_pools pools ++ duplicates [] vips)
