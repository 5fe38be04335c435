-- ===== src/Bgp/Speaker/Tests.antt =====
-- A speaker with one peer.
use lb.Prelude.{List, [], map, refl, true, ◌∷◌, ◌≡◌}
use lb.Prelude.Checked.{value}
use lb.Types.Net.{v4, Ipv4Addr}
use lb.Types.BgpConfig.{legacy_peer}
use lb.Bgp.Session.{announce, withdraw, shutdown, SessionCmd}
use lb.Bgp.Speaker.{BgpSpeaker, spawn}
use lb.Bgp.Speaker.Laws.{calls, served, spawn-calls}

abbrev router : Ipv4Addr
router = record { a = 192; b = 0; c = 2; d = 1 }

abbrev speaker : BgpSpeaker
speaker = record {
  config = record {
    local_asn = 65000;
    router_id = v4 router;
    communities = [];
    next_hop_self = true;
    peers = legacy_peer (v4 router) 65001 ∷ [];
  };
  peers = [];
}

abbrev both : List SessionCmd
both = announce (router ∷ []) ∷ withdraw [] ∷ shutdown ∷ withdraw (router ∷ []) ∷ []

spawn-calls_example :
    (s' : BgpSpeaker) × (spawn speaker ≡ value s')
    × ((calls s' both).peers ≡ map (served speaker router both) speaker.config.peers)
spawn-calls_example = spawn-calls speaker router both refl refl
