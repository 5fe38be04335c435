-- ===== src/Bgp/Messages/Tests.antt =====
-- The messages at concrete addresses.
use lb.Bgp.Messages.Laws.{SentFrame, encode_update_announce-SentFrame}
use lb.Prelude.{[], arith, refl, ◌∷◌, ◌≡◌}
use lb.Types.Net.{Ipv4Addr}
use lb.Prelude.Checked.{value, panic}
use lb.Bgp.Messages.{encode_update_announce, encode_update_withdraw}

abbrev vip : Ipv4Addr
vip = record { a = 192; b = 0; c = 2; d = 10 }

abbrev router : Ipv4Addr
router = record { a = 10; b = 0; c = 0; d = 1 }

encode_update_announce-SentFrame_example : SentFrame (encode_update_announce vip 32 router 65000)
encode_update_announce-SentFrame_example =
    encode_update_announce-SentFrame vip 32 router 65000 (omega arith)

-- A prefix of more than 32 bits.
announce_33_bits : encode_update_announce vip 33 router 65000 ≡ panic
unfolding encode_update_announce
announce_33_bits = refl

withdraw_length :
    encode_update_withdraw vip 24
    ≡ value (
        255 ∷ 255 ∷ 255 ∷ 255 ∷ 255 ∷ 255 ∷ 255 ∷ 255 ∷ 255 ∷ 255 ∷ 255 ∷ 255 ∷ 255 ∷ 255 ∷ 255
        ∷ 255 ∷ 0 ∷ 27 ∷ 2 ∷ 0 ∷ 4 ∷ 24 ∷ 192 ∷ 0 ∷ 2 ∷ 0 ∷ 0 ∷ [])
unfolding encode_update_withdraw
withdraw_length = refl
