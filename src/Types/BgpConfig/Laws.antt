-- ===== src/Types/BgpConfig/Laws.antt =====
-- Which forms of the configuration are accepted.
use lb.Prelude.{
  List, Option, [], ap, inl, inr, none, some, sym, ℕ, ◌∙◌, ◌∷◌, ◌≡◌, ◌≢◌, ◌⊎◌, Bool, false, refl,
  true, ◌↔◌,
}
use lb.Types.Net.{IpAddr}
use mathlib.Core.List.{nil≢cons}
use lb.Types.BgpConfig.{
  peers_error, BgpConfigResult, BgpConfigError, BgpConfigRaw, BgpPeerConfig, legacy_peer, peers_of,
  peers_of_raw, deserialize, PeersResult, BgpConfig, config, config_error,
}

-- A list of peers with one at least and no legacy field, or both legacy fields and no list.
abbrev pub OneForm : BgpConfigRaw → List BgpPeerConfig → Type 0
OneForm raw ps =
    ((raw.peers ≡ some ps) × (ps ≢ []) × (raw.peer_ip ≡ none) × (raw.peer_asn ≡ none))
    ⊎ ((raw.peers ≡ none)
        × ((ip : IpAddr) × (asn : ℕ) × (raw.peer_ip ≡ some ip)
            × (raw.peer_asn ≡ some asn)
            × (ps ≡ legacy_peer ip asn ∷ [])))

peers_of_raw-form :
    (raw : BgpConfigRaw) (peers : Option (List BgpPeerConfig)) (ip : Option IpAddr) (asn : Option ℕ)
    (ps : List BgpPeerConfig)
    → raw.peers ≡ peers
    → raw.peer_ip ≡ ip
    → raw.peer_asn ≡ asn
    → peers_of_raw peers ip asn ≡ peers_of ps
    → OneForm raw ps
unfolding peers_of_raw
peers_of_raw-form raw (some qs) (some i) a ps p q r e = absurd (cc e)
peers_of_raw-form raw (some qs) none (some a) ps p q r e = absurd (cc e)
peers_of_raw-form raw (some []) none none ps p q r e = absurd (cc e)
peers_of_raw-form raw (some (x ∷ xs)) none none ps p q r e =
    let same : x ∷ xs ≡ ps = cc e in
    inl (p ∙ ap some same, (λ z. nil≢cons (sym z ∙ sym same)), q, r)
peers_of_raw-form raw none (some i) (some a) ps p q r e = inr (p, (i, a, q, r, cc e))
peers_of_raw-form raw none none none ps p q r e = absurd (cc e)
peers_of_raw-form raw none (some i) none ps p q r e = absurd (cc e)
peers_of_raw-form raw none none (some a) ps p q r e = absurd (cc e)

form-peers_of_raw :
    (raw : BgpConfigRaw) (ps : List BgpPeerConfig)
    → OneForm raw ps
    → peers_of_raw raw.peers raw.peer_ip raw.peer_asn ≡ peers_of ps
unfolding peers_of_raw
form-peers_of_raw raw [] (inl (p, some', q, r)) = absurd (some' refl)
form-peers_of_raw raw (x ∷ ps) (inl (p, some', q, r)) = rw (p, q, r) refl
form-peers_of_raw raw ps (inr (p, (i, a, q, r, e))) = rw (p, q, r, e) refl

-- What is read, with these peers.
unfoldable pub configured : BgpConfigRaw → List BgpPeerConfig → BgpConfig
configured raw ps = record {
  local_asn = raw.local_asn;
  router_id = raw.router_id;
  communities = raw.communities;
  next_hop_self = raw.next_hop_self;
  peers = ps;
}

-- The peers of a result; none of an error.
abbrev peers_in : BgpConfigResult → List BgpPeerConfig
peers_in (config c) = c.peers
peers_in (config_error e) = []

abbrev is_config : BgpConfigResult → Bool
is_config (config c) = true
is_config (config_error e) = false

PeersResult-cases :
    (r : PeersResult)
    → ((e : BgpConfigError) × (r ≡ peers_error e)) ⊎ ((ps : List BgpPeerConfig) × (r ≡ peers_of ps))
PeersResult-cases (peers_error e) = inl (e, refl)
PeersResult-cases (peers_of ps) = inr (ps, refl)

-- A configuration is accepted, with the fields as they are given and with `ps` for its peers, if and
-- only if either a list `ps` of one peer at least is given and no legacy field, or both legacy
-- fields are given and no list, and then `ps` is the one peer of these fields and the defaults.
pub deserialize_iff :
    (raw : BgpConfigRaw) (ps : List BgpPeerConfig)
    → (deserialize raw ≡ config (configured raw ps)) ↔ OneForm raw ps
unfolding deserialize configured
deserialize_iff raw ps = (
  (λ d. elim (PeersResult-cases (peers_of_raw raw.peers raw.peer_ip raw.peer_asn)) [
    | inl (e, p) ↦
        let q : deserialize raw ≡ config_error e = rw (deserialize, p) refl in
        absurd (cc (ap is_config (sym q ∙ d)))
    | inr (qs, p) ↦
        let q : deserialize raw ≡ config (configured raw qs) = rw (deserialize, p) refl in
        let same : qs ≡ ps = ap peers_in (sym q ∙ d) in
        peers_of_raw-form raw raw.peers raw.peer_ip raw.peer_asn ps refl refl refl
          (p ∙ ap peers_of same)
  ]),
  λ f. rw (deserialize, form-peers_of_raw raw ps f) refl,
)
