-- ===== src/Bgp/Session/Connect/Laws.antt =====
-- The hold time that two ends agree on.
use lb.Prelude.{ap, arith, length, min, refl, true, ℕ, ◌<◌, ◌^◌, ◌∙◌, ◌≡◌}
use lb.Types.Net.{Ipv4Addr}
use lb.Bgp.Messages.{encode_open, is_open, parse_message_type, message_type}
use lb.Bgp.Messages.Laws.{parse_open_hold_time-encode_open}
use lb.Bgp.Session.Connect.{negotiate, negotiated}

-- An OPEN is taken for one.
encode_open-is_open :
    (asn hold : ℕ) (id : Ipv4Addr) → is_open (parse_message_type (encode_open asn hold id)) ≡ true
unfolding encode_open is_open parse_message_type message_type
encode_open-is_open asn hold id = refl

length-encode_open : (asn hold : ℕ) (id : Ipv4Addr) → length (encode_open asn hold id) ≡ 29
unfolding encode_open
length-encode_open asn hold id = refl

accepts :
    (ours theirs asn : ℕ) (id : Ipv4Addr)
    → theirs < 2 ^ 16
    → negotiate ours (encode_open asn theirs id) ≡ negotiated (min ours theirs)
unfolding negotiate
accepts ours theirs asn id h =
    rw
      (
        length-encode_open asn theirs id,
        encode_open-is_open asn theirs id,
        parse_open_hold_time-encode_open asn theirs id h,
      )
      refl

-- For hold times of 16 bits: two ends that send each other their OPENs come to the same hold time,
-- the smaller of the two they ask for.
pub negotiate-encode_open :
    (h h' asn asn' : ℕ) (id id' : Ipv4Addr)
    → h < 2 ^ 16
    → h' < 2 ^ 16
    → (negotiate h (encode_open asn' h' id') ≡ negotiated (min h h'))
      × (negotiate h' (encode_open asn h id) ≡ negotiated (min h h'))
negotiate-encode_open h h' asn asn' id id' b b' =
    let same : min h' h ≡ min h h' = omega arith in
    (accepts h h' asn' id' b', accepts h' h asn id b ∙ ap negotiated same)
