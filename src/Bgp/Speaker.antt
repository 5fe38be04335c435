-- ===== src/Bgp/Speaker.antt =====
-- crates/lb-bgp/src/speaker.rs: `BgpSpeaker`, which keeps a session for each peer and passes every
-- announcement on to them. What a session's task does with its commands is modelled with the
-- session; here a task keeps its receiver until it has been shut down and awaited.
use lb.Prelude.{
  true, Bool, List, Option, [], if◌then◌else◌, map, none, not, some, ℕ, ◌%◌, ◌++◌, ◌^◌, ◌∷◌, false,
}
use lb.Prelude.Checked.{Checked, value, panic}
use lb.Types.Net.{IpAddr, Ipv4Addr, v4, v6}
use lb.Types.BgpConfig.{BgpConfig, BgpPeerConfig}
use lb.Bgp.Session.{
  PeerSessionCtx, PeerState, SessionCmd, announce, withdraw, shutdown, idle, disabled,
}
pub mod Laws
mod Tests

-- What `spawn` starts for a peer: its session, or the loop that drains the channel of a disabled one.
pub data Task : Type 0 where
  session : PeerSessionCtx → Task
  draining : Task

-- The commands that were sent with success, and whether the receiver is still there.
pub record Channel : Type 0 where
  pub sent : List SessionCmd
  pub connected : Bool

pub record PeerHandle : Type 0 where
  pub peer_ip : IpAddr
  pub tx : Channel
  pub state : PeerState
  pub task : Option Task
  pub enabled : Bool

pub record BgpSpeaker : Type 0 where
  pub config : BgpConfig
  pub peers : List PeerHandle

unfoldable pub new : BgpConfig → BgpSpeaker
new config = record { config = config; peers = [] }

-- One peer of `spawn`; `local_asn as u16` keeps the low 16 bits.
unfoldable pub spawn_peer : ℕ → Ipv4Addr → BgpPeerConfig → PeerHandle
spawn_peer local_asn router_id peer_cfg = record {
  peer_ip = peer_cfg.peer_ip;
  tx = record { sent = []; connected = true };
  state = if peer_cfg.enabled then idle else disabled;
  task = some (
      if peer_cfg.enabled
      then session record { peer = peer_cfg; local_asn = local_asn % 2 ^ 16; router_id = router_id }
      else draining);
  enabled = peer_cfg.enabled;
}

-- The `assert!`, and no sessions for a router that is not IPv4.
unfoldable pub spawn_with : BgpSpeaker → List PeerHandle → IpAddr → Checked BgpSpeaker
unfolding spawn_peer
spawn_with s (_ ∷ _) router = panic
spawn_with s [] (v6 ip) = value s
spawn_with s [] (v4 router_id) =
    value (record s { peers = map (spawn_peer s.config.local_asn router_id) s.config.peers })

unfoldable pub spawn : BgpSpeaker → Checked BgpSpeaker
unfolding spawn_with
spawn s = spawn_with s s.peers s.config.router_id

unfoldable pub peer_states : BgpSpeaker → List (IpAddr × PeerState)
peer_states s = map (λ p. (p.peer_ip, p.state)) s.peers

-- `tx.send(cmd)`; an error is logged or ignored.
unfoldable pub send : SessionCmd → PeerHandle → PeerHandle
send cmd p =
    if p.tx.connected then record p { tx = record p.tx { sent = p.tx.sent ++ (cmd ∷ []) } } else p

unfoldable pub send_if_enabled : SessionCmd → PeerHandle → PeerHandle
unfolding send
send_if_enabled cmd p = if not p.enabled then p else send cmd p

unfoldable pub announce_all : BgpSpeaker → List Ipv4Addr → BgpSpeaker
unfolding send_if_enabled
announce_all s [] = s
announce_all s (vip ∷ vips) = record s {
  peers = map (send_if_enabled (announce (vip ∷ vips))) s.peers;
}

unfoldable pub withdraw_all : BgpSpeaker → List Ipv4Addr → BgpSpeaker
unfolding send_if_enabled
withdraw_all s [] = s
withdraw_all s (vip ∷ vips) = record s {
  peers = map (send_if_enabled (withdraw (vip ∷ vips))) s.peers;
}

-- `task.lock().take()` and `task.await`: the task has met the Shutdown, and its receiver is dropped.
unfoldable pub await_task : PeerHandle → PeerHandle
await_task p = elim p.task [
  | none ↦ p
  | some task ↦ record p { task = none; tx = record p.tx { connected = false } }
]

-- `shutdown`: all are told before the first is awaited.
unfoldable pub shutdown_all : BgpSpeaker → BgpSpeaker
unfolding send await_task
shutdown_all s = record s { peers = map await_task (map (send shutdown) s.peers) }
