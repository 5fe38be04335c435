-- ===== src/Bgp/Session/Run.antt =====
-- crates/lb-bgp/src/speaker.rs: `run`, the loop over the attempts to hold a session. An attempt is
-- what the outside does in one round: the commands that wait, the connection, the turns of the
-- session, and what ends the pause after it. When an attempt's turns end while the session is up,
-- the model stops there.
use lb.Prelude.{
  Bool, List, Option, [], false, if◌then◌else◌, min, none, some, true, ℕ, ◌*◌, ◌++◌, ◌∷◌,
}
use lb.Prelude.Checked.{Checked, value, ◌>>=◌}
use lb.Types.Ttls.{second}
use lb.Bgp.Session.{
  drive, Effect, emitted, established, idle, Next, PeerSessionCtx, SessionCmd, shutdown, slept,
  state_set, Turn, backoff, connecting, goes_on, ends, peer_connected, peer_disconnected, announce,
  withdraw,
}
use lb.Bgp.Session.Connect.{connect, Offer, ConnectResult, negotiated, refused}
pub mod Protocol
pub mod Rounds
pub mod Pauses

abbrev pub default_hold_time_secs : ℕ
default_hold_time_secs = 90

abbrev pub reconnect_backoff_min : ℕ
reconnect_backoff_min = 1 * second

abbrev pub reconnect_backoff_max : ℕ
reconnect_backoff_max = 60 * second

-- The pause is over, or `rx.recv()` returned first.
pub data Wake : Type 0 where
  elapsed : Wake
  woken : Option SessionCmd → Wake

pub record Attempt : Type 0 where
  pub queued : List SessionCmd
  pub offer : Offer
  pub now : ℕ
  pub turns : List Turn
  pub wake : Wake

-- `while let Ok(cmd) = rx.try_recv()`: whether it met a Shutdown.
unfoldable pub drain_queue : List SessionCmd → Bool
drain_queue [] = false
drain_queue (shutdown ∷ cmds) = true
drain_queue (announce vips ∷ cmds) = drain_queue cmds
drain_queue (withdraw vips ∷ cmds) = drain_queue cmds

-- Whether the pause lasted to its end.
unfoldable pub elapses : Wake → Bool
elapses elapsed = true
elapses (woken cmd) = false

-- Whether the pause ended in a return.
unfoldable pub stops : Wake → Bool
stops elapsed = false
stops (woken none) = true
stops (woken (some shutdown)) = true
stops (woken (some (announce vips))) = false
stops (woken (some (withdraw vips))) = false

-- What a round leaves: the task has returned, it pauses and the pause is this, or the session is
-- still up.
pub data Round : Type 0 where
  returned still_up : Round
  pausing : ℕ → Round

module _ (latest : ℕ) (ctx : PeerSessionCtx) where
  abbrev pub our_hold : ℕ
  our_hold = elim ctx.peer.hold_time_secs [ some h ↦ h | none ↦ default_hold_time_secs ]

  -- After `drive`.
  unfoldable pub after_drive : List Effect × Next → List Effect × Round
  after_drive (out, goes_on live) = (out, still_up)
  after_drive (out, ends d) =
      let out' = out ++ (emitted (peer_disconnected ctx.peer.peer_ip d.reason) ∷ []) in
      if d.terminal
      then (out' ++ (state_set idle ∷ []), returned)
      else (out', pausing reconnect_backoff_min)

  -- After `connect`.
  unfoldable pub after_connect :
      ℕ → Attempt → List Effect × ConnectResult → Checked (List Effect × Round)
  unfolding after_drive
  after_connect pause attempt (out, refused e) = value (out, pausing pause)
  after_connect pause attempt (out, negotiated hold) = do
    session ← drive latest ctx hold attempt.now attempt.turns
    let (out', round) = after_drive session
    value (out ++ (state_set established ∷ emitted (peer_connected ctx.peer.peer_ip) ∷ out'), round)

  unfoldable pub run_from : ℕ → List Attempt → Checked (List Effect × Round)
  unfolding drain_queue stops elapses after_connect
  run_from pause [] = value ([], pausing pause)
  run_from pause (attempt ∷ attempts) =
      if drain_queue attempt.queued then value (state_set idle ∷ [], returned) else (do
        (out, round) ← after_connect pause attempt (connect ctx attempt.offer our_hold)
        let begun = state_set connecting ∷ out
        elim round [
          | returned ↦ value (begun, returned)
          | still_up ↦ value (begun, still_up)
          | pausing d ↦
              let paused = begun ++ (state_set backoff ∷ slept d (elapses attempt.wake) ∷ []) in
              if stops attempt.wake then value (paused ++ (state_set idle ∷ []), returned) else (do
                (rest, last) ← run_from (min (d * 2) reconnect_backoff_max) attempts
                value (paused ++ rest, last))
        ])

  unfoldable pub run : List Attempt → Checked (List Effect × Round)
  unfolding run_from
  run attempts = run_from reconnect_backoff_min attempts
