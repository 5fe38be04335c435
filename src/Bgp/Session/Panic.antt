-- ===== src/Bgp/Session/Panic.antt =====
-- The arithmetic on instants in `drive`, and when it panics.
use Prim.Native.Nat.{max}
use lb.Prelude.{
  List, [], arith, lt→ltb, none, not-ltb, refl, some, ℕ, ◌*◌, ◌+◌, ◌/◌, ◌<◌, ◌∷◌, ◌≡◌, ◌≤◌,
}
use lb.Prelude.Checked.{Checked, value, panic, ◌>>=◌}
use lb.Types.Ttls.{second}
use lb.Bgp.Session.{
  PeerSessionCtx, Effect, Live, Turn, Next, Arm, recv, tick, hold_sleep, read, goes_on, ends, drive,
  drive_from, later, keepalive_interval, hold_deadline, effectively_never, keepalives_enabled,
  on_arm, max,
}
use lb.Bgp.Session.Laws.{Sends, Written, on_arm-Sends, then_turns, Sends->>=, Written-append}
use lb.Bgp.Session.Deadline.{Shows, read_at, on_arm-Shows}

-- Each turn comes at least the hold time before the last instant.
abbrev pub InTime : ℕ → ℕ → List Turn → Type 0
InTime latest hold [] = Unit
InTime latest hold (turn ∷ turns) = (turn.now + hold * second ≤ latest) × InTime latest hold turns

module _ (latest : ℕ) (ctx : PeerSessionCtx) (hold : ℕ) where
  then_turns-Sends :
      (now since : ℕ) (turns : List Turn) (m : Checked (List Effect × Next))
      → Sends m
      → Shows since Unit m
      → ((live : Live)
          → live.last_inbound ≡ since
          → Sends (drive_from latest ctx hold now live turns))
      → Sends (m >>= then_turns latest ctx hold now turns)
  then_turns-Sends now since turns panic h s k = h
  then_turns-Sends now since turns (value (out, ends d)) h s k = h
  then_turns-Sends now since turns (value (out, goes_on live)) h s k =
      Sends->>= (drive_from latest ctx hold now live turns) _ (k live s)
        (λ rest last w. Written-append out rest h w)

  read_at-InTime :
      (since now : ℕ) (arm : Arm)
      → since + hold * second ≤ latest
      → now + hold * second ≤ latest
      → read_at since now arm + hold * second ≤ latest
  unfolding read_at
  read_at-InTime since now (recv cmd) h k = h
  read_at-InTime since now tick h k = h
  read_at-InTime since now hold_sleep h k = h
  read_at-InTime since now (read none) h k = h
  read_at-InTime since now (read (some [])) h k = h
  read_at-InTime since now (read (some (c ∷ cs))) h k = k

  later-value : (since d : ℕ) → since + d ≤ latest → later latest since d ≡ value (since + d)
  unfolding later
  later-value since d h = rw (not-ltb latest (since + d) h) refl

  drive_from-Sends :
      (now : ℕ) (live : Live) (turns : List Turn)
      → 0 < hold
      → live.last_inbound + hold * second ≤ latest
      → InTime latest hold turns
      → Sends (drive_from latest ctx hold now live turns)
  unfolding drive_from keepalives_enabled hold_deadline Written
  drive_from-Sends now live [] z h k = tt
  drive_from-Sends now live (turn ∷ turns) z h (k, ks) =
      rw (lt→ltb 0 hold z, later-value live.last_inbound (hold * second) h)
        (then_turns-Sends turn.now (read_at live.last_inbound turn.now turn.arm) turns
          (on_arm latest ctx hold live (live.last_inbound + hold * second) turn.now turn.writable
            turn.arm)
          (on_arm-Sends latest ctx hold live _ turn.now turn.writable turn.arm)
          (on_arm-Shows latest ctx hold Unit live _ turn.now turn.writable turn.arm (λ a e l. tt))
          (λ live' same.
            drive_from-Sends turn.now live' turns z
              (rw same (read_at-InTime live.last_inbound turn.now turn.arm h k)) ks))

-- The hold time is above zero, and the start and each turn come at least the hold time before the
-- last instant there is: then the session does not panic, whatever its turns are, and all that it
-- writes are frames.
pub drive-Sends :
    (latest : ℕ) (ctx : PeerSessionCtx) (hold now : ℕ) (turns : List Turn)
    → 0 < hold
    → now + hold * second ≤ latest
    → InTime latest hold turns
    → Sends (drive latest ctx hold now turns)
unfolding drive keepalive_interval keepalives_enabled
drive-Sends latest ctx hold now turns z h hs =
    let first = later-value latest ctx hold now (max (hold / 3) 1 * second) (omega (arith, z, h)) in
    rw (lt→ltb 0 hold z, first) (drive_from-Sends latest ctx hold now _ turns z h hs)

-- With a negotiated hold time of zero, a session that begins when fewer than `u64::MAX / 2` seconds
-- are left to the last instant there is panics before its first turn.
pub drive_zero-panic :
    (latest : ℕ) (ctx : PeerSessionCtx) (now : ℕ) (turns : List Turn)
    → latest < now + effectively_never
    → drive latest ctx 0 now turns ≡ panic
unfolding drive keepalive_interval keepalives_enabled later
drive_zero-panic latest ctx now turns h = rw (lt→ltb latest (now + effectively_never) h) refl
