-- ===== src/Bgp/Framing/Tests.antt =====
-- A stream of two messages that arrives in two reads.
use lb.Bgp.Messages.Laws.{encode_keepalive-IsFrame, encode_notification-IsFrame}
use lb.Bgp.Framing.Laws.{AllFrames, first_notification, on_reads-flatten}
use lb.Prelude.{List, [], drop, none, refl, take, ◌++◌, ◌∷◌, ◌≡◌, ℕ_discrete}
use lb.Types.Net.{Bytes, Bytes-discrete}
use lb.Bgp.Framing.{on_reads, take_message, take_messages, on_read}
use lb.Bgp.Messages.{encode_keepalive, encode_notification}
use mathlib.Core.List.{flatten}

abbrev sent : List Bytes
sent = encode_keepalive ∷ encode_notification 6 2 ∷ []

abbrev reads : List Bytes
reads =
    take 25 (encode_keepalive ++ encode_notification 6 2)
    ∷ drop 25 (encode_keepalive ++ encode_notification 6 2)
    ∷ []

sent-AllFrames : AllFrames sent
unfolding AllFrames
sent-AllFrames = (encode_keepalive-IsFrame, (encode_notification-IsFrame 6 2, tt))

same_bytes : flatten reads ≡ flatten sent
unfolding flatten encode_keepalive encode_notification
same_bytes = refl

on_reads-flatten_example :
    ((on_reads [] reads).0 ≡ first_notification sent)
    × (first_notification sent ≡ none → on_reads [] reads ≡ (none, []))
on_reads-flatten_example = on_reads-flatten sent reads sent-AllFrames same_bytes

-- Off the marker, a byte is dropped and the whole message behind it waits for the next read.
after_one_byte : on_reads [] ((0 ∷ encode_notification 6 2) ∷ []) ≡ (none, encode_notification 6 2)
unfolding on_reads on_read take_messages take_message Bytes-discrete encode_notification
    lb.Prelude.ℕ_discrete
after_one_byte = refl
