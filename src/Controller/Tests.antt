-- ===== src/Controller/Tests.antt =====
-- An instance of the announcements, for a controller with no configuration and one VIP announced.
use lb.Types.Backend.{HealthStatus}
use lb.Types.Net.{IpAddr, Ipv4Addr, IpAddr-discrete}
use lb.Prelude.{◌||◌, Option, [], arith, false, none, refl, some, true, ◌∷◌, ◌≡◌}
use lb.Controller.VipSet.{contains_vip}
use lb.Controller.Announce.{heard, announcements-heard}
use lb.Controller.Defs.{
  StatusMap, Controller, sync_bgp_announcements, withdraw_all, reannounce_all,
  desired_announced_vips,
}

abbrev vip : Ipv4Addr
vip = record { a = 188; b = 184; c = 100; d = 10 }

-- A health map as a function.
abbrev dash : StatusMap
dash = record {
  Map = IpAddr → Option HealthStatus;
  get = λ m ip. m ip;
  insert = λ m ip s q. elim (IpAddr-discrete q ip) [ yes _ ↦ some s | no _ ↦ m q ];
  get-insert = λ m ip s. ground arith;
  get-insert_ne = λ m ip q s ne. ground arith;
}

abbrev controller : Controller dash
controller = record {
  lookup_tables = [];
  health_status = λ ip. none;
  config = none;
  backend_pool_index = [];
  pending_pools = [];
  pending_since = none;
  table_size = 7;
  bgp = true;
  vips_announced = vip ∷ [];
}

announcements-heard_example :
    ((heard vip
          (contains_vip vip controller.vips_announced)
          (sync_bgp_announcements dash controller).1
        ≡ contains_vip vip (desired_announced_vips dash controller))
      × (contains_vip vip (sync_bgp_announcements dash controller).0.vips_announced
          ≡ contains_vip vip (desired_announced_vips dash controller)))
    × ((heard vip (contains_vip vip controller.vips_announced) (withdraw_all dash controller).1
          ≡ false)
        × (contains_vip vip (withdraw_all dash controller).0.vips_announced ≡ false))
    × (heard vip true (reannounce_all dash controller)
        ≡ (true || contains_vip vip controller.vips_announced))
    × (heard vip false (reannounce_all dash controller)
        ≡ contains_vip vip controller.vips_announced)
announcements-heard_example = announcements-heard dash controller vip true refl
