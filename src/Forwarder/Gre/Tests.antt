-- ===== src/Forwarder/Gre/Tests.antt =====
-- An instance of the encapsulation, for a packet of one byte in a buffer of 32.
use lb.Types.Net.{Bytes, Ipv4Addr}
use lb.Types.Mtu
use lb.Prelude.{◌++◌, ◌^◌, ◌%◌, ◌+◌, arith, length, replicate, some, take, ℕ, ◌<◌, ◌∷◌, ◌≡◌}
use lb.Forwarder.Gre.Laws.{
  gre_type, sealed_header, word_sum, encapsulate_ipv4_buf-tunnel, IsAddress,
}
use lb.Forwarder.Gre.{encapsulate_ipv4_buf, Bytes, Ipv4Addr}
use lb.Prelude.Checked.{value}

abbrev host : ℕ → Ipv4Addr
host d = record { a = 10; b = 0; c = 0; d = d }

abbrev buffer : Bytes
buffer = 0x45 ∷ replicate 31 0

host-IsAddress : (d : ℕ) → d < 256 → IsAddress (host d)
host-IsAddress d h = record { a_lt = omega arith; b_lt = omega arith; c_lt = omega arith; d_lt = h }

encapsulate_ipv4_buf-tunnel_example :
    (c : ℕ) × (w : Bytes) × (encapsulate_ipv4_buf buffer 1 (host 1) (host 2)
      ≡ value
          (some (sealed_header 25 (host 1) (host 2) c ++ ((0x00 ∷ 0x00 ∷ gre_type 0x45) ++ w), 25)))
    × (c < 2 ^ 16)
    × (word_sum (sealed_header 25 (host 1) (host 2) c) % 0xFFFF ≡ 0)
    × (length w + 24 ≡ length buffer)
    × (take 1 w ≡ take 1 buffer)
encapsulate_ipv4_buf-tunnel_example =
    encapsulate_ipv4_buf-tunnel (host 1) (host 2) (host-IsAddress 1 (omega arith))
      (host-IsAddress 2 (omega arith)) 1 0x45 (replicate 31 0) (omega arith) (omega arith)
      (omega arith)
