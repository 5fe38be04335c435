-- ===== src/Forwarder/VipMatcher/Tests.antt =====
-- An instance of the matcher's property.
use lb.Types.Net.{IpAddr, v4}
use lb.Prelude.{List, [], ◌∷◌, ◌≡◌}
use lb.Forwarder.VipMatcher.{VipEntry, match_packet, from_entries, Protocol, IpAddr}
use lb.Forwarder.VipMatcher.Laws.{last_entry, match_packet-from_entries}
use lb.Types.Packet.{Protocol}

abbrev vip : IpAddr
vip = v4 (record { a = 188; b = 184; c = 100; d = 10 })

abbrev entries : List VipEntry
entries =
    record { key = record { ip = vip; protocol = Protocol.tcp; port = 443 }; pool_id = 119 ∷ [] }
    ∷ record { key = record { ip = vip; protocol = Protocol.tcp; port = 443 }; pool_id = 120 ∷ [] }
    ∷ []

match_packet-from_entries_example :
    match_packet (from_entries entries) vip Protocol.tcp 443
    ≡ last_entry (record { ip = vip; protocol = Protocol.tcp; port = 443 }) entries
match_packet-from_entries_example = match_packet-from_entries entries vip Protocol.tcp 443
