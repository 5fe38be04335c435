-- ===== src/Bgp/Session/Run/Rounds.antt =====
-- The rounds of a peer's task keep to the phases.
use mathlib.Core.Path.{subst}
use lb.Prelude.{◌<◌, ◌+◌, List, [], ℕ, ◌*◌, ◌++◌, ◌∷◌, ◌≤◌, inl, inr, arith, if◌then◌else◌, min}
use lb.Prelude.Checked.{Checked, value, panic, ◌>>=◌, if-holds, Checked-cases}
use lb.Types.Ttls.{second}
use lb.Bgp.Session.{
  PeerSessionCtx, Effect, emitted, state_set, slept, Next, goes_on, ends, peer_connected,
  peer_disconnected, connecting, established, backoff, idle, drive,
}
use lb.Bgp.Session.Panic.{InTime, drive-Sends}
use lb.Bgp.Session.Laws.{Written, Sends}
use lb.Bgp.Session.Connect.{connect, ConnectResult, negotiated, refused}
use lb.Bgp.Session.Run.{
  Round, returned, still_up, pausing, run, run_from, after_connect, after_drive, Attempt, Wake,
  elapses, drain_queue, reconnect_backoff_min, reconnect_backoff_max, stops, our_hold,
}
use lb.Bgp.Session.Run.Protocol.{
  Phase, Moves, Follows, resting, trying, up, closing, waiting, stopped, begin, establish,
  connect_up, close, give_up, retreat, pause, stop, stop_closing, done, next, Trying,
  Follows-append, Written-Follows, connect-Greets, Greets-Follows,
}

-- The phase that a round leaves.
unfoldable pub phase : Round → Phase
phase returned = stopped
phase still_up = up
phase (pausing d) = resting

-- A round up to the pause, from phase `p`.
abbrev Ended : Phase → List Effect × Round → Type 0
Ended p (out, returned) = Follows p out stopped
Ended p (out, still_up) = Follows p out up
Ended p (out, pausing d) =
    (q : Phase) × Follows p out q
    × Moves q (state_set backoff) waiting
    × (1 * second ≤ d)
    × (d ≤ 60 * second)

abbrev EndedWhole : Phase → Checked (List Effect × Round) → Type 0
EndedWhole p panic = ⊥
EndedWhole p (value r) = Ended p r

Ended-next :
    {p q : Phase} {e : Effect} (r : List Effect × Round)
    → Moves p e q
    → Ended q r
    → Ended p (e ∷ r.0, r.1)
Ended-next (out, returned) m h = next m h
Ended-next (out, still_up) m h = next m h
Ended-next (out, pausing d) m (s, h, b, lo, hi) = (s, next m h, b, lo, hi)

Ended-append :
    {p q : Phase} (out : List Effect) (r : List Effect × Round)
    → Follows p out q
    → Ended q r
    → Ended p (out ++ r.0, r.1)
Ended-append [] r done h = h
Ended-append (e ∷ out) r (next m f) h = Ended-next (out ++ r.0, r.1) m (Ended-append out r f h)

-- No panic, and the whole of what was done.
abbrev pub FollowsPhases : Checked (List Effect × Round) → Type 0
FollowsPhases panic = ⊥
FollowsPhases (value (out, round)) = Follows resting out (phase round)

-- What keeps the session of an attempt from a panic: a hold time above zero, and turns at least that
-- long before the last instant.
abbrev pub Sound : ℕ → Attempt → ConnectResult → Type 0
Sound latest attempt (refused e) = Unit
Sound latest attempt (negotiated hold) =
    (0 < hold) × (attempt.now + hold * second ≤ latest) × InTime latest hold attempt.turns

unfoldable pub EachSound : ℕ → PeerSessionCtx → ℕ → List Attempt → Type 0
EachSound latest ctx hold [] = Unit
EachSound latest ctx hold (attempt ∷ attempts) =
    Sound latest attempt (connect ctx attempt.offer hold).1 × EachSound latest ctx hold attempts

module _ (latest : ℕ) (ctx : PeerSessionCtx) where
  after_drive-Ended :
      (session : List Effect × Next) → Written session.0 → Ended up (after_drive latest ctx session)
  unfolding after_drive
  after_drive-Ended (out, goes_on live) h = Written-Follows out h
  after_drive-Ended (out, ends d) h =
      let reported = out ++ (emitted (peer_disconnected ctx.peer.peer_ip d.reason) ∷ []) in
      let closed = Follows-append out _ (Written-Follows out h) (next close done) in
      if-holds (Ended up) d.terminal (reported ++ (state_set idle ∷ []), returned)
        (reported, pausing reconnect_backoff_min)
        (λ _. Follows-append reported _ closed (next stop_closing done))
        (λ _. (closing, closed, retreat, omega arith, omega arith))

  after_connect-Ended :
      (pause' : ℕ) (attempt : Attempt) (r : List Effect × ConnectResult)
      → 1 * second ≤ pause'
      → pause' ≤ 60 * second
      → Trying r
      → Sound latest attempt r.1
      → EndedWhole trying (after_connect latest ctx pause' attempt r)
  unfolding after_connect
  after_connect-Ended pause' attempt (out, refused e) lo hi h sound =
      (trying, Greets-Follows out h, give_up, lo, hi)
  after_connect-Ended pause' attempt (out, negotiated hold) lo hi h (z, at, times) =
      let sends = drive-Sends latest ctx hold attempt.now attempt.turns z at times in
      elim (Checked-cases (drive latest ctx hold attempt.now attempt.turns)) [
        | inl e ↦ absurd (subst Sends e sends)
        | inr (session, e) ↦
            let written = subst Sends e sends in
            let after = after_drive latest ctx session in
            rw e (
              Ended-append out
                (
                  state_set established ∷ emitted (peer_connected ctx.peer.peer_ip) ∷ after.0,
                  after.1,
                )
                (Greets-Follows out h)
                (Ended-next (emitted (peer_connected ctx.peer.peer_ip) ∷ after.0, after.1) establish
                  (Ended-next after connect_up (after_drive-Ended session written))))
      ]

  -- What the loop does after a round.
  abbrev then_attempts : Wake → List Attempt → List Effect × Round → Checked (List Effect × Round)
  then_attempts wake attempts r = elim r.1 [
    | returned ↦ value (state_set connecting ∷ r.0, returned)
    | still_up ↦ value (state_set connecting ∷ r.0, still_up)
    | pausing d ↦
        if stops wake
        then value (
          ((state_set connecting ∷ r.0) ++ (state_set backoff ∷ slept d (elapses wake) ∷ []))
              ++ (state_set idle ∷ []),
          returned,
        )
        else run_from latest ctx (min (d * 2) reconnect_backoff_max) attempts >>= (λ s. value (
          ((state_set connecting ∷ r.0) ++ (state_set backoff ∷ slept d (elapses wake) ∷ []))
              ++ s.0,
          s.1,
        ))
  ]

  then_attempts-Follows :
      (wake : Wake) (attempts : List Attempt) (m : Checked (List Effect × Round))
      → EndedWhole trying m
      → ((d : ℕ)
          → 1 * second ≤ d
          → d ≤ 60 * second
          → FollowsPhases (run_from latest ctx d attempts))
      → FollowsPhases (m >>= then_attempts wake attempts)
  unfolding phase
  then_attempts-Follows wake attempts panic h k = h
  then_attempts-Follows wake attempts (value (out, returned)) h k = next begin h
  then_attempts-Follows wake attempts (value (out, still_up)) h k = next begin h
  then_attempts-Follows wake attempts (value (out, pausing d)) (q, h, m, lo, hi) k =
      let d' = min (d * 2) reconnect_backoff_max in
      let paused =
        (state_set connecting ∷ out) ++ (state_set backoff ∷ slept d (elapses wake) ∷ []) in
      let rests : Follows resting paused resting =
        next begin (Follows-append out _ h (next m (next (pause lo hi) done))) in
      if-holds FollowsPhases (stops wake) (value (paused ++ (state_set idle ∷ []), returned)) _
        (λ _. Follows-append paused _ rests (next stop done))
        (λ _.
          resumed paused rests (run_from latest ctx d' attempts)
            (k d' (omega (arith, lo)) (omega arith)))
    where
      resumed :
          (paused : List Effect)
          → Follows resting paused resting
          → (m : Checked (List Effect × Round)) → FollowsPhases m
          → FollowsPhases (m >>= (λ s. value (paused ++ s.0, s.1)))
      resumed paused rests panic f = f
      resumed paused rests (value (rest, last)) f = Follows-append paused rest rests f

  run_from-Follows :
      (pause' : ℕ) (attempts : List Attempt)
      → 1 * second ≤ pause'
      → pause' ≤ 60 * second
      → EachSound latest ctx (our_hold latest ctx) attempts
      → FollowsPhases (run_from latest ctx pause' attempts)
  unfolding run_from phase EachSound
  run_from-Follows pause' [] lo hi sounds = done
  run_from-Follows pause' (attempt ∷ attempts) lo hi (sound, sounds) =
      if-holds FollowsPhases (drain_queue attempt.queued) (value (state_set idle ∷ [], returned)) _
        (λ _. next stop done)
        (λ _.
          then_attempts-Follows attempt.wake attempts
            (after_connect latest ctx pause' attempt
              (connect ctx attempt.offer (our_hold latest ctx)))
            (after_connect-Ended pause' attempt _ lo hi
              (connect-Greets ctx attempt.offer (our_hold latest ctx)) sound)
            (λ d lo' hi'. run_from-Follows d attempts lo' hi' sounds))

-- Whatever the outside does, as long as each session that an attempt gets has a hold time above zero
-- and its turns come at least that long before the last instant: a peer's task does not panic, and
-- its effects follow the phases. `Connecting` is set first; only frames are written; a session is
-- reported up once and after `Established`, and reported down once before `Backoff` or `Idle`;
-- failures of sends and NOTIFICATIONs are reported only between the two; each pause comes after
-- `Backoff` and is set to last from 1 to 60 seconds, which a command may cut short; and the task has
-- set `Idle` last just when it has returned.
pub run-Follows :
    (latest : ℕ) (ctx : PeerSessionCtx) (attempts : List Attempt)
    → EachSound latest ctx (our_hold latest ctx) attempts
    → FollowsPhases (run latest ctx attempts)
unfolding run
run-Follows latest ctx attempts sounds =
    run_from-Follows latest ctx (1 * second) attempts (omega arith) (omega arith) sounds
