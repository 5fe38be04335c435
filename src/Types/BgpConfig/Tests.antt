-- ===== src/Types/BgpConfig/Tests.antt =====
-- The legacy form.
use lb.Prelude.{[], none, some, true, ◌↔◌, ◌∷◌, ◌≡◌}
use lb.Types.Net.{v4, IpAddr}
use lb.Types.BgpConfig.{BgpConfigRaw, legacy_peer, deserialize, config}
use lb.Types.BgpConfig.Laws.{deserialize_iff, configured, OneForm}

abbrev router : IpAddr
router = v4 (record { a = 192; b = 0; c = 2; d = 1 })

abbrev legacy : BgpConfigRaw
legacy = record {
  local_asn = 65000;
  router_id = router;
  communities = [];
  next_hop_self = true;
  peer_ip = some router;
  peer_asn = some 65001;
  peers = none;
}

deserialize_iff_example :
    (deserialize legacy ≡ config (configured legacy (legacy_peer router 65001 ∷ [])))
    ↔ OneForm legacy (legacy_peer router 65001 ∷ [])
deserialize_iff_example = deserialize_iff legacy (legacy_peer router 65001 ∷ [])
