-- ===== src/Forwarder/Gre/Mtu.antt =====
-- The parameters of crates/lb-types/src/mtu.rs against the tunnel of gre.rs that they are for.
use lb.Prelude.{◌<◌, ◌≤◌, ◌≡◌, ◌+◌, ◌∷◌, ℕ, some}
use lb.Prelude.Checked.{value}
use lb.Types.Net.{Bytes, Ipv4Addr}
use lb.Types.Mtu.{MtuResult, valid, invalid, below_minimum, mss_too_small}
use lb.Forwarder.Gre.{encapsulate_ipv4_buf}

-- What the result for an MTU says of tunnelled packets: an inner packet of the effective MTU fills
-- the link with its tunnel headers, one of a segment of the clamped MSS with an IP and a TCP
-- header of 20 bytes each is such a packet, and an MTU is refused below 1280 only.
unfoldable pub Fills : Ipv4Addr → Ipv4Addr → ℕ → Bytes → ℕ → MtuResult → Type 0
Fills s d x xs mtu (valid c) =
    (1280 ≤ mtu)
    × (c.network_mtu ≡ mtu)
    × (c.tcp_mss_clamp + 20 + 20 ≡ c.effective_inner_mtu)
    × (536 ≤ c.tcp_mss_clamp)
    × ((w : Bytes) × (encapsulate_ipv4_buf (x ∷ xs) c.effective_inner_mtu s d
          ≡ value (some (w, mtu))))
Fills s d x xs mtu (invalid (below_minimum n)) = (mtu < 1280) × (n ≡ mtu)
Fills s d x xs mtu (invalid (mss_too_small n)) = ⊥
