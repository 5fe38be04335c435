-- ===== src/Controller/Announce.antt =====
-- What the routers have heard, against what the controller believes to be announced.
use lb.Types.Net.{Ipv4Addr}
use lb.Controller.Defs.{
  StatusMap, unless_empty, withdraw, Command, sync_bgp_announcements, announce, Controller,
  desired_announced_vips, withdraw_all, reannounce_all,
}
use lb.Prelude.{Bool, List, [], false, not, refl, true, ◌&&◌, ◌++◌, ◌||◌, ◌∙◌, ◌∷◌, ◌≡◌, ap}
use lb.Controller.VipSet.{contains_vip, difference, contains_vip-difference}

-- Whether a router takes the address for announced, after commands, if it did before as `b` says.
unfoldable pub heard : Ipv4Addr → Bool → List Command → Bool
unfolding contains_vip
heard v b [] = b
heard v b (announce vs ∷ commands) = heard v (b || contains_vip v vs) commands
heard v b (withdraw vs ∷ commands) = heard v (b && not (contains_vip v vs)) commands

heard-append :
    (v : Ipv4Addr) (b : Bool) (cs ds : List Command)
    → heard v b (cs ++ ds) ≡ heard v (heard v b cs) ds
unfolding heard
heard-append v b [] ds = refl
heard-append v b (announce vs ∷ cs) ds = heard-append v (b || contains_vip v vs) cs ds
heard-append v b (withdraw vs ∷ cs) ds = heard-append v (b && not (contains_vip v vs)) cs ds

heard-announce :
    (v : Ipv4Addr) (b : Bool) (vs : List Ipv4Addr)
    → heard v b (unless_empty announce vs) ≡ (b || contains_vip v vs)
unfolding heard unless_empty contains_vip
heard-announce v true [] = refl
heard-announce v false [] = refl
heard-announce v b (u ∷ us) = refl

heard-withdraw :
    (v : Ipv4Addr) (b : Bool) (vs : List Ipv4Addr)
    → heard v b (unless_empty withdraw vs) ≡ (b && not (contains_vip v vs))
unfolding heard unless_empty contains_vip
heard-withdraw v true [] = refl
heard-withdraw v false [] = refl
heard-withdraw v b (u ∷ us) = refl

both_ways : (a d : Bool) → ((a || (d && not a)) && not (a && not d)) ≡ d
both_ways true true = refl
both_ways true false = refl
both_ways false true = refl
both_ways false false = refl

module _ (dash : StatusMap) where
  -- A router that holds what the controller believes holds what it wants after a reconciliation.
  sync-heard :
      (c : Controller dash) (v : Ipv4Addr)
      → c.bgp ≡ true
      → heard v (contains_vip v c.vips_announced) (sync_bgp_announcements dash c).1
        ≡ contains_vip v (sync_bgp_announcements dash c).0.vips_announced
  unfolding sync_bgp_announcements
  sync-heard c v on =
      let desired = desired_announced_vips dash c in
      let a = contains_vip v c.vips_announced in
      rw on (
        heard-append v a (unless_empty announce (difference desired c.vips_announced))
          (unless_empty withdraw (difference c.vips_announced desired))
        ∙ rw
            (
              heard-announce v a (difference desired c.vips_announced),
              heard-withdraw v (a || contains_vip v (difference desired c.vips_announced))
                  (difference c.vips_announced desired),
              contains_vip-difference v desired c.vips_announced,
              contains_vip-difference v c.vips_announced desired,
            )
            (both_ways a (contains_vip v desired)))

  -- With a speaker attached, and a router that takes an address for announced as the controller
  -- does: after `sync_bgp_announcements` the router and the controller both take it for announced
  -- exactly if it is one of the desired VIPs, and after `withdraw_all` neither does. After
  -- `reannounce_all` a router takes for announced what it did before, whatever that is, and each
  -- address that the controller takes for announced, so that one that had lost all agrees again.
  pub announcements-heard :
      (c : Controller dash) (v : Ipv4Addr) (before : Bool)
      → c.bgp ≡ true
      → ((heard v (contains_vip v c.vips_announced) (sync_bgp_announcements dash c).1
            ≡ contains_vip v (desired_announced_vips dash c))
          × (contains_vip v (sync_bgp_announcements dash c).0.vips_announced
              ≡ contains_vip v (desired_announced_vips dash c)))
        × ((heard v (contains_vip v c.vips_announced) (withdraw_all dash c).1 ≡ false)
            × (contains_vip v (withdraw_all dash c).0.vips_announced ≡ false))
        × (heard v before (reannounce_all dash c) ≡ (before || contains_vip v c.vips_announced))
        × (heard v false (reannounce_all dash c) ≡ contains_vip v c.vips_announced)
  unfolding sync_bgp_announcements withdraw_all reannounce_all contains_vip
  announcements-heard c v before on =
      let b = contains_vip v c.vips_announced in
      let desired : (sync_bgp_announcements dash c).0.vips_announced
          ≡ desired_announced_vips dash c =
        rw on refl in
      (
        (sync-heard c v on ∙ ap (contains_vip v) desired, ap (contains_vip v) desired),
        (rw on (heard-withdraw v b c.vips_announced ∙ and_not b), refl),
        rw on (heard-announce v before c.vips_announced),
        rw on (heard-announce v false c.vips_announced),
      )
    where
      and_not : (b : Bool) → (b && not b) ≡ false
      and_not true = refl
      and_not false = refl
