-- ===== src/Controller/VipSet.antt =====
-- `BTreeSet<Ipv4Addr>`, as a list in ascending order.
use lb.Types.Net.{Ipv4Addr, Ipv4Addr-discrete}
use lb.Prelude.{
  Bool, List, [], false, if◌then◌else◌, ltb, not, refl, true, ℕ, ◌&&◌, ◌*◌, ◌+◌, ◌∷◌, ◌≡◌, arith,
}

unfoldable pub address_value : Ipv4Addr → ℕ
address_value ip = ((ip.a * 256 + ip.b) * 256 + ip.c) * 256 + ip.d

unfoldable pub contains_vip : Ipv4Addr → List Ipv4Addr → Bool
contains_vip v [] = false
contains_vip v (u ∷ us) =
    let rest = contains_vip v us in elim (Ipv4Addr-discrete v u) [ yes _ ↦ true | no _ ↦ rest ]

unfoldable pub insert_vip : Ipv4Addr → List Ipv4Addr → List Ipv4Addr
unfolding address_value
insert_vip v [] = v ∷ []
insert_vip v (u ∷ us) =
    let rest = insert_vip v us in
    elim (Ipv4Addr-discrete v u) [
      | yes _ ↦ u ∷ us
      | no _ ↦ if ltb (address_value v) (address_value u) then v ∷ (u ∷ us) else u ∷ rest
    ]

unfoldable pub difference : List Ipv4Addr → List Ipv4Addr → List Ipv4Addr
unfolding contains_vip
difference [] vs = []
difference (u ∷ us) vs = let rest = difference us vs in if contains_vip u vs then rest else u ∷ rest

pub contains_vip-insert_vip :
    (v u : Ipv4Addr) (us : List Ipv4Addr)
    → contains_vip v (insert_vip u us)
      ≡ elim (Ipv4Addr-discrete v u) [ yes _ ↦ true | no _ ↦ contains_vip v us ]
unfolding contains_vip insert_vip
contains_vip-insert_vip v u [] = refl
contains_vip-insert_vip v u (x ∷ us) = let ih = contains_vip-insert_vip v u us in ground arith

pub contains_vip-difference :
    (v : Ipv4Addr) (us vs : List Ipv4Addr)
    → contains_vip v (difference us vs) ≡ (contains_vip v us && not (contains_vip v vs))
unfolding contains_vip difference
contains_vip-difference v [] vs = refl
contains_vip-difference v (u ∷ us) vs = let ih = contains_vip-difference v us vs in ground arith
