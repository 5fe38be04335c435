-- ===== src/Bgp/Session/Deadline.antt =====
-- When the hold timer ends a session, and when the arithmetic on instants cannot fail.
use mathlib.Core.Path.{subst}
use lb.Bgp.Framing.{on_read}
use lb.Prelude.{
  Bool, List, Option, [], false, leb, none, refl, some, suc, true, zero, ℕ, ◌&&◌, ◌∷◌, ◌≡◌, ◌≤◌,
  inl, inr, leb→le, ◌*◌, ◌++◌, ◌+◌, ◌<◌, ap, arith, ltb→lt,
}
use lb.Prelude.Checked.{Checked, value, panic, ◌>>=◌, if-holds, Checked-cases}
use lb.Types.Net.{Bytes}
use lb.Types.Ttls.{second}
use lb.Bgp.Session.{
  PeerSessionCtx, Effect, Live, Turn, Next, Arm, recv, tick, hold_sleep, read, Disconnect,
  SessionCmd, shutdown, announce, withdraw, goes_on, ends, drive, drive_from, later,
  keepalive_interval, hold_deadline, keepalives_enabled, write_all, on_arm, on_command, after_send,
  on_read_arm, after_messages, on_tick, on_hold, send_announce, send_withdraw, Reason, BgpEvent,
  supervisor_dropped, shutdown_asked, announce_failed_on, withdraw_failed_on, keepalive_failed,
  peer_closed, read_failed, notification_received, hold_timer_expired_after, transient_end,
  terminal_end, announce_failed, on_read, withdraw_failed,
}
use lb.Bgp.Session.Laws.{then_turns}

-- When bytes were last read, once a turn was taken at `now`.
unfoldable pub read_at : ℕ → ℕ → Arm → ℕ
read_at since now (recv cmd) = since
read_at since now tick = since
read_at since now hold_sleep = since
read_at since now (read none) = since
read_at since now (read (some [])) = since
read_at since now (read (some (c ∷ cs))) = now

unfoldable pub last_read : ℕ → List Turn → ℕ
unfolding read_at
last_read since [] = since
last_read since (turn ∷ turns) = last_read (read_at since turn.now turn.arm) turns

unfoldable pub is_expiry : Reason → Bool
is_expiry supervisor_dropped = false
is_expiry shutdown_asked = false
is_expiry announce_failed_on = false
is_expiry withdraw_failed_on = false
is_expiry keepalive_failed = false
is_expiry peer_closed = false
is_expiry read_failed = false
is_expiry (notification_received c s) = false
is_expiry (hold_timer_expired_after n) = true

-- A turn's result: where the loop goes on, bytes were last read at `since`; where the hold timer
-- ends it, `Q` holds.
abbrev pub Shows : ℕ → Type 0 → Checked (List Effect × Next) → Type 0
Shows since Q panic = Unit
Shows since Q (value (out, goes_on live)) = live.last_inbound ≡ since
Shows since Q (value (out, ends d)) = is_expiry d.reason ≡ true → Q

&&-true : {a b : Bool} → (a && b) ≡ true → (a ≡ true) × (b ≡ true)
&&-true {a = true} e = (refl, e)
&&-true {a = false} e = absurd (cc e)

module _ (latest : ℕ) (ctx : PeerSessionCtx) (hold : ℕ) (Q : Type 0) where
  after_send-Shows :
      (live : Live) (failed : BgpEvent) (reason : Reason) (m : Checked (List Effect × Bool))
      → is_expiry reason ≡ false
      → Shows live.last_inbound Q
          (m >>= (λ r. value (after_send latest ctx hold live failed reason r)))
  unfolding after_send transient_end is_expiry
  after_send-Shows live failed reason panic h = tt
  after_send-Shows live failed reason (value (out, true)) h = refl
  after_send-Shows live failed reason (value (out, false)) h = λ e. absurd (cc (h, e))

  on_command-Shows :
      (live : Live) (writable : ℕ) (cmd : Option SessionCmd)
      → Shows live.last_inbound Q (on_command latest ctx hold live writable cmd)
  unfolding on_command terminal_end is_expiry
  on_command-Shows live writable none = λ e. absurd (cc e)
  on_command-Shows live writable (some shutdown) = λ e. absurd (cc e)
  on_command-Shows live writable (some (announce vips)) =
      after_send-Shows live (announce_failed ctx.peer.peer_ip) announce_failed_on
        (send_announce ctx writable vips) refl
  on_command-Shows live writable (some (withdraw vips)) =
      after_send-Shows live (withdraw_failed ctx.peer.peer_ip) withdraw_failed_on
        (send_withdraw writable vips) refl

  after_messages-Shows :
      (live : Live) (now : ℕ) (r : Option (ℕ × ℕ) × Bytes)
      → Shows now Q (value (after_messages latest ctx hold live now r))
  unfolding after_messages transient_end is_expiry
  after_messages-Shows live now (some (code, subcode), rest) = λ e. absurd (cc e)
  after_messages-Shows live now (none, rest) = refl

  on_read_arm-Shows :
      (live : Live) (now : ℕ) (bytes : Option Bytes)
      → Shows
          (read_at live.last_inbound now (read bytes))
          Q
          (value (on_read_arm latest ctx hold live now bytes))
  unfolding on_read_arm transient_end is_expiry read_at
  on_read_arm-Shows live now none = λ e. absurd (cc e)
  on_read_arm-Shows live now (some []) = λ e. absurd (cc e)
  on_read_arm-Shows live now (some (c ∷ cs)) =
      after_messages-Shows live now (on_read live.incoming (c ∷ cs))

  on_tick-Shows :
      (live : Live) (writable : ℕ)
      → Shows live.last_inbound Q (value (on_tick latest ctx hold live writable))
  unfolding on_tick write_all transient_end is_expiry
  on_tick-Shows live zero = λ e. absurd (cc e)
  on_tick-Shows live (suc writable) = refl

  pub on_arm-Shows :
      (live : Live) (deadline now writable : ℕ) (arm : Arm)
      → (arm ≡ hold_sleep → keepalives_enabled latest ctx hold ≡ true → deadline ≤ now → Q)
      → Shows
          (read_at live.last_inbound now arm)
          Q
          (on_arm latest ctx hold live deadline now writable arm)
  unfolding on_arm read_at
  on_arm-Shows live deadline now writable (recv cmd) q = on_command-Shows live writable cmd
  on_arm-Shows live deadline now writable tick q =
      if-holds (λ r. Shows live.last_inbound Q (value r)) (leb live.next_tick now)
        (on_tick latest ctx hold live writable) ([], goes_on live)
        (λ _. on_tick-Shows live writable) (λ _. refl)
  on_arm-Shows live deadline now writable (read bytes) q = on_read_arm-Shows live now bytes
  on_arm-Shows live deadline now writable hold_sleep q =
      if-holds (λ r. Shows live.last_inbound Q (value r))
        (keepalives_enabled latest ctx hold && leb deadline now)
        (on_hold latest ctx hold live writable) ([], goes_on live)
        (λ b e. let (k, l) = &&-true b in q refl k (leb→le deadline now l)) (λ _. refl)

abbrev Fires : Type 0 → Checked (List Effect × Next) → Type 0
Fires Q panic = Unit
Fires Q (value (out, goes_on live)) = Unit
Fires Q (value (out, ends d)) = is_expiry d.reason ≡ true → Q

-- A turn of the hold timer that comes when nothing has been read for the hold time.
abbrev pub Silence : ℕ → ℕ → List Turn → Type 0
Silence hold since turns =
    (before : List Turn) × (turn : Turn) × (after : List Turn) × (turns ≡ before ++ (turn ∷ after))
    × (turn.arm ≡ hold_sleep)
    × (0 < hold)
    × (last_read since before + hold * second ≤ turn.now)

module _ (latest : ℕ) (ctx : PeerSessionCtx) (hold : ℕ) where
  then_turns-Fires :
      (now since : ℕ) (Q : Type 0) (turns : List Turn) (m : Checked (List Effect × Next))
      → Shows since Q m
      → ((live : Live)
          → live.last_inbound ≡ since
          → Fires Q (drive_from latest ctx hold now live turns))
      → Fires Q (m >>= then_turns latest ctx hold now turns)
  then_turns-Fires now since Q turns panic h k = tt
  then_turns-Fires now since Q turns (value (out, ends d)) h k = h
  then_turns-Fires now since Q turns (value (out, goes_on live)) h k =
      prepend (drive_from latest ctx hold now live turns) (k live h)
    where
      prepend :
          (m : Checked (List Effect × Next))
          → Fires Q m
          → Fires Q (m >>= (λ s. value (out ++ s.0, s.1)))
      prepend panic f = tt
      prepend (value (rest, goes_on live')) f = tt
      prepend (value (rest, ends d)) f = f

  -- Only with the timer on is the deadline asked for.
  deadline_of :
      (since now deadline : ℕ)
      → keepalives_enabled latest ctx hold ≡ true
      → hold_deadline latest ctx hold since now ≡ value deadline
      → deadline ≡ since + hold * second
  unfolding hold_deadline later keepalives_enabled
  deadline_of since now deadline k e = ground arith

  later_turns :
      (since : ℕ) (turn : Turn) (turns : List Turn) (m : Checked (List Effect × Next))
      → Fires (Silence hold (read_at since turn.now turn.arm) turns) m
      → Fires (Silence hold since (turn ∷ turns)) m
  unfolding last_read
  later_turns since turn turns panic f = tt
  later_turns since turn turns (value (out, goes_on live)) f = tt
  later_turns since turn turns (value (out, ends d)) f = λ e.
      let (before, t, after, cut, a, h, l) = f e in
      (turn ∷ before, t, after, ap (◌∷◌ turn) cut, a, h, l)

  drive_from-Fires :
      (now : ℕ) (live : Live) (turns : List Turn)
      → Fires (Silence hold live.last_inbound turns) (drive_from latest ctx hold now live turns)
  unfolding drive_from last_read keepalives_enabled
  drive_from-Fires now live [] = tt
  drive_from-Fires now live (turn ∷ turns) =
      let Q = Silence hold live.last_inbound (turn ∷ turns) in
      elim (Checked-cases (hold_deadline latest ctx hold live.last_inbound now)) [
        | inl e ↦ rw e tt
        | inr (deadline, e) ↦ rw e (
            then_turns-Fires turn.now (read_at live.last_inbound turn.now turn.arm) Q turns
              (on_arm latest ctx hold live deadline turn.now turn.writable turn.arm)
              (on_arm-Shows latest ctx hold Q live deadline turn.now turn.writable turn.arm
                (λ a k l. (
                  [],
                  turn,
                  turns,
                  refl,
                  a,
                  ltb→lt 0 hold k,
                  omega (arith, l, deadline_of live.last_inbound now deadline k e),
                )))
              (λ live' same.
                later_turns live.last_inbound turn turns
                  (drive_from latest ctx hold turn.now live' turns)
                  (subst
                    (λ s.
                      Fires (Silence hold s turns)
                        (drive_from latest ctx hold turn.now live' turns))
                    same (drive_from-Fires turn.now live' turns))))
      ]

  drive-Fires :
      (now : ℕ) (turns : List Turn)
      → Fires (Silence hold now turns) (drive latest ctx hold now turns)
  unfolding drive
  drive-Fires now turns =
      elim (Checked-cases (later latest now (keepalive_interval latest ctx hold))) [
        | inl p ↦ rw p tt
        | inr (t, p) ↦ rw p (drive_from-Fires now _ turns)
      ]

-- A session that the hold timer ends has a hold time above zero, and there was a turn at which
-- nothing had been read, since the session began or since the last bytes of the turns before, for
-- at least that hold time.
pub drive-Silence :
    (latest : ℕ) (ctx : PeerSessionCtx) (hold now : ℕ) (turns : List Turn) (out : List Effect)
    (d : Disconnect)
    → drive latest ctx hold now turns ≡ value (out, ends d)
    → is_expiry d.reason ≡ true
    → Silence hold now turns
drive-Silence latest ctx hold now turns out d e =
    subst (Fires (Silence hold now turns)) e (drive-Fires latest ctx hold now turns)
