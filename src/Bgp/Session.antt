-- ===== src/Bgp/Session.antt =====
-- crates/lb-bgp/src/speaker.rs: the session of one peer, `connect` and `drive`. What the outside
-- does is given turn by turn: the arm of `select!` that is ready, the time, and how many of the
-- turn's writes to the stream succeed. An arm that is not ready at that time does nothing. Times are
-- nanoseconds; `latest` is the last `Instant` there is: a sum beyond it panics, as its `+` documents.
use Prim.Native.Nat.{max}
use lb.Bgp.Messages.{
  encode_notification, encode_keepalive, encode_update_withdraw, encode_update_announce,
  hold_timer_expired,
}
use lb.Prelude.{
  Bool, List, Option, [], false, if◌then◌else◌, leb, ltb, none, some, suc, true, zero, ℕ, ◌&&◌, ◌*◌,
  ◌++◌, ◌+◌, ◌-◌, ◌/◌, ◌^◌, ◌∷◌, max,
}
use lb.Types.Net.{Bytes, IpAddr, Ipv4Addr}
use lb.Types.Ttls.{second}
use lb.Types.BgpConfig.{BgpPeerConfig}
use lb.Prelude.Checked.{Checked, value, panic, ◌>>=◌}
use lb.Bgp.Framing.{on_read}
pub mod Laws
pub mod Deadline
pub mod Panic
pub mod Connect
pub mod Run
mod Tests

pub data PeerState : Type 0 where
  idle connecting established backoff disabled : PeerState

-- The texts of `Disconnect`, with the numbers they show.
pub data Reason : Type 0 where
  supervisor_dropped shutdown_asked announce_failed_on withdraw_failed_on keepalive_failed : Reason
  peer_closed read_failed : Reason
  notification_received : ℕ → ℕ → Reason
  hold_timer_expired_after : ℕ → Reason

pub data BgpEvent : Type 0 where
  peer_connected : IpAddr → BgpEvent
  peer_disconnected : IpAddr → Reason → BgpEvent
  announce_failed withdraw_failed : IpAddr → BgpEvent
  peer_notification : IpAddr → ℕ → ℕ → BgpEvent

pub data SessionCmd : Type 0 where
  announce withdraw : List Ipv4Addr → SessionCmd
  shutdown : SessionCmd

pub record Disconnect : Type 0 where
  pub reason : Reason
  pub terminal : Bool

unfoldable pub terminal_end : Reason → Disconnect
terminal_end reason = record { reason = reason; terminal = true }

unfoldable pub transient_end : Reason → Disconnect
transient_end reason = record { reason = reason; terminal = false }

pub record PeerSessionCtx : Type 0 where
  pub peer : BgpPeerConfig
  pub local_asn : ℕ
  pub router_id : Ipv4Addr

-- What the session does to the outside, in order.
pub data Effect : Type 0 where
  wrote : Bytes → Effect
  emitted : BgpEvent → Effect
  state_set : PeerState → Effect
  -- A pause that was set to last so long, and whether it lasted as long or a command ended it.
  slept : ℕ → Bool → Effect

-- The first `writable` messages are written, and whether that was all of them.
unfoldable pub write_each :
    (Ipv4Addr → Checked Bytes) → ℕ → List Ipv4Addr → Checked (List Effect × Bool)
write_each encode writable [] = value ([], true)
write_each encode zero (vip ∷ vips) = do _ ← encode vip; value ([], false)
write_each encode (suc writable) (vip ∷ vips) = do
  msg ← encode vip
  (rest, all) ← write_each encode writable vips
  value (wrote msg ∷ rest, all)

unfoldable pub send_announce : PeerSessionCtx → ℕ → List Ipv4Addr → Checked (List Effect × Bool)
send_announce ctx writable vips =
    write_each (λ vip. encode_update_announce vip 32 ctx.router_id ctx.local_asn) writable vips

unfoldable pub send_withdraw : ℕ → List Ipv4Addr → Checked (List Effect × Bool)
send_withdraw writable vips = write_each (λ vip. encode_update_withdraw vip 32) writable vips

-- `write_all` of one message: written or not.
unfoldable pub write_all : ℕ → Bytes → List Effect × Bool
write_all zero msg = ([], false)
write_all (suc writable) msg = (wrote msg ∷ [], true)

-- The variables of the loop.
pub record Live : Type 0 where
  pub next_tick : ℕ
  pub incoming : Bytes
  pub last_inbound : ℕ

-- What `rx.recv()` and `stream.read()` return; a read of no bytes is the end of the stream.
pub data Arm : Type 0 where
  recv : Option SessionCmd → Arm
  tick hold_sleep : Arm
  read : Option Bytes → Arm

pub record Turn : Type 0 where
  pub arm : Arm
  pub now : ℕ
  pub writable : ℕ

pub data Next : Type 0 where
  goes_on : Live → Next
  ends : Disconnect → Next

-- `Instant + Duration`.
unfoldable pub later : ℕ → ℕ → ℕ → Checked ℕ
later latest since duration =
    if ltb latest (since + duration) then panic else value (since + duration)

-- `Duration::from_secs(u64::MAX / 2)`.
abbrev pub effectively_never : ℕ
effectively_never = 9_223_372_036_854_775_807 * second

module _ (latest : ℕ) (ctx : PeerSessionCtx) (negotiated_hold : ℕ) where
  unfoldable pub keepalives_enabled : Bool
  keepalives_enabled = ltb 0 negotiated_hold

  unfoldable pub keepalive_interval : ℕ
  unfolding keepalives_enabled
  keepalive_interval =
      if keepalives_enabled then max (negotiated_hold / 3) 1 * second else effectively_never

  unfoldable pub hold_deadline : ℕ → ℕ → Checked ℕ
  unfolding keepalives_enabled later
  hold_deadline since now =
      if keepalives_enabled
      then later latest since (negotiated_hold * second)
      else later latest now effectively_never

  -- The command was sent, or one of its messages was not.
  unfoldable pub after_send : Live → BgpEvent → Reason → List Effect × Bool → List Effect × Next
  unfolding transient_end
  after_send live failed reason (out, true) = (out, goes_on live)
  after_send live failed reason (out, false) =
      (out ++ (emitted failed ∷ []), ends (transient_end reason))

  unfoldable pub on_command : Live → ℕ → Option SessionCmd → Checked (List Effect × Next)
  unfolding terminal_end send_announce send_withdraw after_send
  on_command live writable none = value ([], ends (terminal_end supervisor_dropped))
  on_command live writable (some shutdown) = value ([], ends (terminal_end shutdown_asked))
  on_command live writable (some (announce vips)) = do
    sent ← send_announce ctx writable vips
    value (after_send live (announce_failed ctx.peer.peer_ip) announce_failed_on sent)
  on_command live writable (some (withdraw vips)) = do
    sent ← send_withdraw writable vips
    value (after_send live (withdraw_failed ctx.peer.peer_ip) withdraw_failed_on sent)

  -- The ticker keeps to its period when it is late.
  unfoldable pub on_tick : Live → ℕ → List Effect × Next
  unfolding write_all transient_end keepalive_interval
  on_tick live writable =
      let (out, written) = write_all writable encode_keepalive in
      if written
      then (out, goes_on record live { next_tick = live.next_tick + keepalive_interval })
      else (out, ends (transient_end keepalive_failed))

  -- What was taken off the buffer: a NOTIFICATION, or none.
  unfoldable pub after_messages : Live → ℕ → Option (ℕ × ℕ) × Bytes → List Effect × Next
  unfolding transient_end
  after_messages live now (some (code, subcode), rest) = (
    emitted (peer_notification ctx.peer.peer_ip code subcode) ∷ [],
    ends (transient_end (notification_received code subcode)),
  )
  after_messages live now (none, rest) =
      ([], goes_on record live { incoming = rest; last_inbound = now })

  unfoldable pub on_read_arm : Live → ℕ → Option Bytes → List Effect × Next
  unfolding transient_end after_messages
  on_read_arm live now none = ([], ends (transient_end read_failed))
  on_read_arm live now (some []) = ([], ends (transient_end peer_closed))
  on_read_arm live now (some (c ∷ cs)) = after_messages live now (on_read live.incoming (c ∷ cs))

  unfoldable pub on_hold : Live → ℕ → List Effect × Next
  unfolding write_all transient_end
  on_hold live writable = (
    (write_all writable (encode_notification hold_timer_expired 0)).0,
    ends (transient_end (hold_timer_expired_after negotiated_hold)),
  )

  -- With the deadline that was computed before.
  unfoldable pub on_arm : Live → ℕ → ℕ → ℕ → Arm → Checked (List Effect × Next)
  unfolding on_command on_tick on_read_arm on_hold keepalives_enabled
  on_arm live deadline now writable (recv cmd) = on_command live writable cmd
  on_arm live deadline now writable tick =
      value (if leb live.next_tick now then on_tick live writable else ([], goes_on live))
  on_arm live deadline now writable (read bytes) = value (on_read_arm live now bytes)
  on_arm live deadline now writable hold_sleep =
      value (
        if keepalives_enabled && leb deadline now
        then on_hold live writable
        else ([], goes_on live))

  -- The loop, for as many turns as the outside gives it: the state it is in, or the end. `now` is
  -- when the turn before was taken.
  unfoldable pub drive_from : ℕ → Live → List Turn → Checked (List Effect × Next)
  drive_from now live [] = value ([], goes_on live)
  drive_from now live (turn ∷ turns) = do
    deadline ← hold_deadline live.last_inbound now
    (out, next) ← on_arm live deadline turn.now turn.writable turn.arm
    elim next [
      | ends d ↦ value (out, ends d)
      | goes_on live' ↦ do (rest, last) ← drive_from turn.now live' turns; value (out ++ rest, last)
    ]

  unfoldable pub drive : ℕ → List Turn → Checked (List Effect × Next)
  unfolding keepalive_interval
  drive now turns = do
    first_tick ← later latest now keepalive_interval
    drive_from now record { next_tick = first_tick; incoming = []; last_inbound = now } turns
