-- ===== src/Bgp/Speaker/Laws.antt =====
-- Every session is sent every announcement and withdrawal, in order.
use lb.Prelude.{
  not, if◌then◌else◌, ◌%◌, ◌^◌, Bool, List, [], false, map, true, ◌++◌, ◌∷◌, ◌≡◌, ap, none, refl,
  some, sym, ◌∙◌,
}
use lb.Prelude.Checked.{value}
use mathlib.Core.List.{append_assoc, append-nil}
use lb.Types.Net.{Ipv4Addr, v4}
use lb.Types.BgpConfig.{BgpPeerConfig}
use lb.Bgp.Session.{SessionCmd, announce, withdraw, shutdown}
use lb.Bgp.Speaker.{
  Task, session, draining, await_task, BgpSpeaker, PeerHandle, spawn, spawn_peer, spawn_with,
  announce_all, withdraw_all, send, send_if_enabled, shutdown_all,
}

-- The calls on the speaker.
unfoldable pub call : BgpSpeaker → SessionCmd → BgpSpeaker
unfolding announce_all withdraw_all shutdown_all
call s (announce vips) = announce_all s vips
call s (withdraw vips) = withdraw_all s vips
call s shutdown = shutdown_all s

unfoldable pub calls : BgpSpeaker → List SessionCmd → BgpSpeaker
unfolding call
calls s [] = s
calls s (c ∷ cs) = calls (call s c) cs

-- What a peer should have been sent: nothing for an empty call, only the end if it is disabled, and
-- nothing after the end.
unfoldable pub due : Bool → List SessionCmd → List SessionCmd
due enabled [] = []
due enabled (announce [] ∷ cs) = due enabled cs
due enabled (withdraw [] ∷ cs) = due enabled cs
due enabled (shutdown ∷ cs) = shutdown ∷ []
due true (announce (v ∷ vs) ∷ cs) = announce (v ∷ vs) ∷ due true cs
due true (withdraw (v ∷ vs) ∷ cs) = withdraw (v ∷ vs) ∷ due true cs
due false (announce (v ∷ vs) ∷ cs) = due false cs
due false (withdraw (v ∷ vs) ∷ cs) = due false cs

-- Whether a shutdown is among the calls.
unfoldable pub ended : List SessionCmd → Bool
ended [] = false
ended (announce vips ∷ cs) = ended cs
ended (withdraw vips ∷ cs) = ended cs
ended (shutdown ∷ cs) = true

-- One call, for one peer.
unfoldable one : SessionCmd → PeerHandle → PeerHandle
unfolding send_if_enabled send await_task
one (announce []) p = p
one (announce (v ∷ vs)) p = send_if_enabled (announce (v ∷ vs)) p
one (withdraw []) p = p
one (withdraw (v ∷ vs)) p = send_if_enabled (withdraw (v ∷ vs)) p
one shutdown p = await_task (send shutdown p)

-- All calls, for one peer.
unfoldable through : List SessionCmd → PeerHandle → PeerHandle
through [] p = p
through (c ∷ cs) p = through cs (one c p)

map-same :
    (f : PeerHandle → PeerHandle) (ps : List PeerHandle)
    → ((p : PeerHandle) → f p ≡ p)
    → map f ps ≡ ps
map-same f [] h = refl
map-same f (p ∷ ps) h = rw (h p, map-same f ps h) refl

map-one_shutdown :
    (ps : List PeerHandle) → map await_task (map (send shutdown) ps) ≡ map (one shutdown) ps
unfolding one
map-one_shutdown [] = refl
map-one_shutdown (p ∷ ps) = ap (λ rest. await_task (send shutdown p) ∷ rest) (map-one_shutdown ps)

call-peers : (s : BgpSpeaker) (c : SessionCmd) → (call s c).peers ≡ map (one c) s.peers
unfolding call announce_all withdraw_all shutdown_all one
call-peers s (announce []) = sym (map-same (one (announce [])) s.peers (λ p. refl))
call-peers s (announce (v ∷ vs)) = refl
call-peers s (withdraw []) = sym (map-same (one (withdraw [])) s.peers (λ p. refl))
call-peers s (withdraw (v ∷ vs)) = refl
call-peers s shutdown = map-one_shutdown s.peers

map-through :
    (c : SessionCmd) (cs : List SessionCmd) (ps : List PeerHandle)
    → map (through cs) (map (one c) ps) ≡ map (through (c ∷ cs)) ps
unfolding through
map-through c cs [] = refl
map-through c cs (p ∷ ps) = ap (λ rest. through cs (one c p) ∷ rest) (map-through c cs ps)

calls-peers :
    (cs : List SessionCmd) (s : BgpSpeaker) → (calls s cs).peers ≡ map (through cs) s.peers
unfolding calls through
calls-peers [] s = sym (map-same (through []) s.peers (λ p. refl))
calls-peers (c ∷ cs) s =
    calls-peers cs (call s c) ∙ ap (map (through cs)) (call-peers s c) ∙ map-through c cs s.peers

-- A peer that has been sent these, with its task or without.
abbrev live : PeerHandle → Bool → List SessionCmd → Task → PeerHandle
live p enabled sent task = record p {
  tx = record { sent = sent; connected = true };
  task = some task;
  enabled = enabled;
}

abbrev gone : PeerHandle → Bool → List SessionCmd → PeerHandle
gone p enabled sent = record p {
  tx = record { sent = sent; connected = false };
  task = none;
  enabled = enabled;
}

through-gone :
    (cs : List SessionCmd) (p : PeerHandle) (enabled : Bool) (sent : List SessionCmd)
    → through cs (gone p enabled sent) ≡ gone p enabled sent
unfolding through one send send_if_enabled await_task
through-gone [] p enabled sent = refl
through-gone (announce [] ∷ cs) p enabled sent = through-gone cs p enabled sent
through-gone (withdraw [] ∷ cs) p enabled sent = through-gone cs p enabled sent
through-gone (announce (v ∷ vs) ∷ cs) p true sent = through-gone cs p true sent
through-gone (announce (v ∷ vs) ∷ cs) p false sent = through-gone cs p false sent
through-gone (withdraw (v ∷ vs) ∷ cs) p true sent = through-gone cs p true sent
through-gone (withdraw (v ∷ vs) ∷ cs) p false sent = through-gone cs p false sent
through-gone (shutdown ∷ cs) p enabled sent = through-gone cs p enabled sent

-- What calls leave of a live peer.
abbrev left : PeerHandle → Bool → List SessionCmd → Task → Bool → PeerHandle
left p enabled sent task end = record p {
  tx = record { sent = sent; connected = not end };
  task = if end then none else some task;
  enabled = enabled;
}

through-live :
    (cs : List SessionCmd) (p : PeerHandle) (enabled : Bool) (sent : List SessionCmd) (task : Task)
    → through cs (live p enabled sent task)
      ≡ left p enabled (sent ++ due enabled cs) task (ended cs)
unfolding through one send send_if_enabled await_task due ended
through-live [] p enabled sent task = ap (λ x. live p enabled x task) (sym (append-nil sent))
through-live (announce [] ∷ cs) p enabled sent task = through-live cs p enabled sent task
through-live (withdraw [] ∷ cs) p enabled sent task = through-live cs p enabled sent task
through-live (announce (v ∷ vs) ∷ cs) p false sent task = through-live cs p false sent task
through-live (withdraw (v ∷ vs) ∷ cs) p false sent task = through-live cs p false sent task
through-live (announce (v ∷ vs) ∷ cs) p true sent task =
    through-live cs p true (sent ++ (announce (v ∷ vs) ∷ [])) task
    ∙ ap (λ x. left p true x task (ended cs))
        (append_assoc sent (announce (v ∷ vs) ∷ []) (due true cs))
through-live (withdraw (v ∷ vs) ∷ cs) p true sent task =
    through-live cs p true (sent ++ (withdraw (v ∷ vs) ∷ [])) task
    ∙ ap (λ x. left p true x task (ended cs))
        (append_assoc sent (withdraw (v ∷ vs) ∷ []) (due true cs))
through-live (shutdown ∷ cs) p enabled sent task =
    through-gone cs p enabled (sent ++ (shutdown ∷ []))

-- A peer's handle after `spawn` and calls.
unfoldable pub served : BgpSpeaker → Ipv4Addr → List SessionCmd → BgpPeerConfig → PeerHandle
unfolding spawn_peer due ended
served s router_id cs peer_cfg =
    let p = spawn_peer s.config.local_asn router_id peer_cfg in
    record p {
      tx = record { sent = due peer_cfg.enabled cs; connected = not (ended cs) };
      task = if ended cs then none else p.task;
    }

-- After `spawn` on a speaker without peers, with an IPv4 router id, and after any calls of
-- `announce`, `withdraw` and `shutdown`, with tasks that keep their receivers until they are shut
-- down: there is one peer for each in the configuration, in its order. Up to the first shutdown and
-- with it, the channel of an enabled one was sent every call in order but those with no addresses,
-- and that of a disabled one only the shutdown; then the receiver is gone and the task taken, and
-- nothing later is sent.
pub spawn-calls :
    (s : BgpSpeaker) (router_id : Ipv4Addr) (cs : List SessionCmd)
    → s.peers ≡ []
    → s.config.router_id ≡ v4 router_id
    → (s' : BgpSpeaker) × (spawn s ≡ value s')
      × ((calls s' cs).peers ≡ map (served s router_id cs) s.config.peers)
unfolding spawn spawn_with served spawn_peer
spawn-calls s router_id cs e r = (
  record s { peers = map (spawn_peer s.config.local_asn router_id) s.config.peers },
  rw (e, r) refl,
  calls-peers cs _ ∙ each s.config.peers,
)
  where
    each :
        (ps : List BgpPeerConfig)
        → map (through cs) (map (spawn_peer s.config.local_asn router_id) ps)
          ≡ map (served s router_id cs) ps
    each [] = refl
    each (p ∷ ps) =
        let task =
          if p.enabled
          then session
              record { peer = p; local_asn = s.config.local_asn % 2 ^ 16; router_id = router_id }
          else draining in
        let served_one : through cs (spawn_peer s.config.local_asn router_id p)
            ≡ served s router_id cs p =
          through-live cs (spawn_peer s.config.local_asn router_id p) p.enabled [] task in
        ap (λ x. x ∷ map (through cs) (map (spawn_peer s.config.local_asn router_id) ps)) served_one
        ∙ ap (λ rest. served s router_id cs p ∷ rest) (each ps)
