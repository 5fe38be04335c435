-- ===== src/Bgp/Session/Laws.antt =====
-- What a session writes, and when it can panic.
use lb.Bgp.Framing.{on_read}
use lb.Bgp.Messages.Laws.{
  IsFrame, SentFrame, encode_keepalive-IsFrame, encode_update_announce-SentFrame,
  encode_update_withdraw-SentFrame, encode_notification-IsFrame,
}
use lb.Prelude.{
  List, [], ℕ, ◌++◌, ◌∷◌, Bool, Option, arith, false, none, some, suc, true, zero, leb, ◌&&◌,
}
use lb.Prelude.Checked.{Checked, value, panic, ◌>>=◌, if-holds}
use lb.Types.Net.{Bytes, Ipv4Addr}
use lb.Bgp.Messages.{hold_timer_expired}
use lb.Bgp.Session.{
  PeerSessionCtx, Effect, wrote, emitted, state_set, slept, Live, Turn, Next, Arm, recv, tick,
  hold_sleep, read, SessionCmd, shutdown, announce, withdraw, goes_on, ends, drive_from,
  keepalives_enabled, write_each, write_all, on_arm, on_command, after_send, on_read_arm,
  after_messages, on_tick, on_hold, send_announce, send_withdraw, BgpEvent, Reason, on_read,
  peer_connected, announce_failed, peer_disconnected, withdraw_failed, peer_notification,
}

-- The events that a session reports of itself.
abbrev pub IsReport : BgpEvent → Type 0
IsReport (peer_connected ip) = ⊥
IsReport (peer_disconnected ip reason) = ⊥
IsReport (announce_failed ip) = Unit
IsReport (withdraw_failed ip) = Unit
IsReport (peer_notification ip code subcode) = Unit

-- Only frames are written and only such events are emitted, and nothing else is done.
unfoldable pub Written : List Effect → Type 0
Written [] = Unit
Written (wrote b ∷ out) = IsFrame b × Written out
Written (emitted e ∷ out) = IsReport e × Written out
Written (state_set s ∷ out) = ⊥
Written (slept d all ∷ out) = ⊥

pub Written-append : (xs ys : List Effect) → Written xs → Written ys → Written (xs ++ ys)
unfolding Written
Written-append [] ys h k = k
Written-append (wrote b ∷ xs) ys (f, h) k = (f, Written-append xs ys h k)
Written-append (emitted e ∷ xs) ys (r, h) k = (r, Written-append xs ys h k)
Written-append (state_set s ∷ xs) ys h k = elim h [ ]
Written-append (slept d all ∷ xs) ys h k = elim h [ ]

-- No panic, and only frames are written; and the same unless there is a panic.
abbrev pub Sends {ℓ} : {A : Type ℓ} → Checked (List Effect × A) → Type 0
Sends (value (out, a)) = Written out
Sends panic = ⊥

pub Sends->>= {ℓ κ} :
    {A : Type ℓ} {B : Type κ} (m : Checked (List Effect × A))
    (k : List Effect × A → Checked (List Effect × B))
    → Sends m
    → ((out : List Effect) (a : A) → Written out → Sends (k (out, a)))
    → Sends (m >>= k)
Sends->>= (value (out, a)) k h next = next out a h
Sends->>= panic k h next = h

SentFrame->>= {κ} :
    {B : Type κ} (m : Checked Bytes) (k : Bytes → Checked (List Effect × B))
    → SentFrame m
    → ((b : Bytes) → IsFrame b → Sends (k b))
    → Sends (m >>= k)
unfolding SentFrame
SentFrame->>= (value b) k h next = next b h
SentFrame->>= panic k h next = h

write_each-Sends :
    (encode : Ipv4Addr → Checked Bytes) (writable : ℕ) (vips : List Ipv4Addr)
    → ((vip : Ipv4Addr) → SentFrame (encode vip))
    → Sends (write_each encode writable vips)
unfolding write_each Written
write_each-Sends encode writable [] h = tt
write_each-Sends encode zero (vip ∷ vips) h =
    SentFrame->>= (encode vip) (λ _. value ([], false)) (h vip) (λ b f. tt)
write_each-Sends encode (suc writable) (vip ∷ vips) h =
    SentFrame->>= (encode vip)
      (λ msg. do (rest, all) ← write_each encode writable vips; value (wrote msg ∷ rest, all))
      (h vip)
      (λ b f.
        Sends->>= (write_each encode writable vips) (λ r. value (wrote b ∷ r.0, r.1))
          (write_each-Sends encode writable vips h) (λ out a w. (f, w)))

write_all-Written : (writable : ℕ) (msg : Bytes) → IsFrame msg → Written (write_all writable msg).0
unfolding write_all Written
write_all-Written zero msg f = tt
write_all-Written (suc writable) msg f = (f, tt)

module _ (latest : ℕ) (ctx : PeerSessionCtx) (hold : ℕ) where
  after_send-Written :
      (live : Live) (failed : BgpEvent) (reason : Reason) (sent : List Effect × Bool)
      → IsReport failed
      → Written sent.0
      → Written (after_send latest ctx hold live failed reason sent).0
  unfolding after_send Written
  after_send-Written live failed reason (out, true) r h = h
  after_send-Written live failed reason (out, false) r h =
      Written-append out (emitted failed ∷ []) h (r, tt)

  on_command-Sends :
      (live : Live) (writable : ℕ) (cmd : Option SessionCmd)
      → Sends (on_command latest ctx hold live writable cmd)
  unfolding on_command Written send_announce send_withdraw
  on_command-Sends live writable none = tt
  on_command-Sends live writable (some shutdown) = tt
  on_command-Sends live writable (some (announce vips)) =
      Sends->>= (send_announce ctx writable vips) _
        (write_each-Sends _ writable vips (λ vip.
          encode_update_announce-SentFrame vip 32 ctx.router_id ctx.local_asn (omega arith)))
        (λ out all w. after_send-Written live (announce_failed ctx.peer.peer_ip) _ (out, all) tt w)
  on_command-Sends live writable (some (withdraw vips)) =
      Sends->>= (send_withdraw writable vips) _
        (write_each-Sends _ writable vips
          (λ vip. encode_update_withdraw-SentFrame vip 32 (omega arith)))
        (λ out all w. after_send-Written live (withdraw_failed ctx.peer.peer_ip) _ (out, all) tt w)

  on_tick-Written : (live : Live) (writable : ℕ) → Written (on_tick latest ctx hold live writable).0
  unfolding on_tick Written write_all
  on_tick-Written live zero = tt
  on_tick-Written live (suc writable) = (encode_keepalive-IsFrame, tt)

  after_messages-Written :
      (live : Live) (now : ℕ) (r : Option (ℕ × ℕ) × Bytes)
      → Written (after_messages latest ctx hold live now r).0
  unfolding after_messages Written
  after_messages-Written live now (some (code, subcode), rest) = (tt, tt)
  after_messages-Written live now (none, rest) = tt

  on_read_arm-Written :
      (live : Live) (now : ℕ) (bytes : Option Bytes)
      → Written (on_read_arm latest ctx hold live now bytes).0
  unfolding on_read_arm Written
  on_read_arm-Written live now none = tt
  on_read_arm-Written live now (some []) = tt
  on_read_arm-Written live now (some (c ∷ cs)) =
      after_messages-Written live now (on_read live.incoming (c ∷ cs))

  on_hold-Written : (live : Live) (writable : ℕ) → Written (on_hold latest ctx hold live writable).0
  unfolding on_hold
  on_hold-Written live writable =
      write_all-Written writable _ (encode_notification-IsFrame hold_timer_expired 0)

  pub on_arm-Sends :
      (live : Live) (deadline now writable : ℕ) (arm : Arm)
      → Sends (on_arm latest ctx hold live deadline now writable arm)
  unfolding on_arm Written
  on_arm-Sends live deadline now writable (recv cmd) = on_command-Sends live writable cmd
  on_arm-Sends live deadline now writable tick =
      if-holds (λ r. Written r.0) (leb live.next_tick now) (on_tick latest ctx hold live writable)
        ([], goes_on live) (λ _. on_tick-Written live writable) (λ _. tt)
  on_arm-Sends live deadline now writable (read bytes) = on_read_arm-Written live now bytes
  on_arm-Sends live deadline now writable hold_sleep =
      if-holds (λ r. Written r.0) (keepalives_enabled latest ctx hold && leb deadline now)
        (on_hold latest ctx hold live writable) ([], goes_on live)
        (λ _. on_hold-Written live writable) (λ _. tt)

  -- What is left of a turn's result once the turns after it are known.
  abbrev pub then_turns : ℕ → List Turn → List Effect × Next → Checked (List Effect × Next)
  then_turns now turns r = elim r.1 [
    | ends d ↦ value (r.0, ends d)
    | goes_on live' ↦ drive_from latest ctx hold now live' turns >>= (λ s. value (r.0 ++ s.0, s.1))
  ]
