-- ===== src/Bgp/Session/Run/Pauses.antt =====
-- The pauses between attempts that fail one after the other.
use native.Mathlib.Nat.{pow-suc}
use lb.Bgp.Session.Run.Protocol.{Greets, connect-Greets}
use lb.Prelude.{
  List, [], ap, false, min, refl, suc, ℕ, ◌*◌, ◌++◌, ◌+◌, ◌^◌, ◌∷◌, ◌≡◌, length, arith, ◌∙◌, Bool,
  true,
}
use lb.Prelude.Checked.{value}
use lb.Types.Ttls.{second}
use lb.Bgp.Session.{PeerSessionCtx, Effect, wrote, emitted, state_set, slept, connecting, backoff}
use lb.Bgp.Session.Connect.{connect, ConnectResult, refused, BgpError}
use lb.Bgp.Session.Run.{
  elapses, Wake, elapsed, woken, pausing, run, run_from, after_connect, Attempt, drain_queue, stops,
  our_hold, reconnect_backoff_max,
}

-- The pauses among the effects: for how long each was set, and whether it lasted as long.
unfoldable pub pauses_in : List Effect → List (ℕ × Bool)
pauses_in [] = []
pauses_in (wrote b ∷ out) = pauses_in out
pauses_in (emitted e ∷ out) = pauses_in out
pauses_in (state_set s ∷ out) = pauses_in out
pauses_in (slept d all ∷ out) = (d, all) ∷ pauses_in out

-- After that many failures.
abbrev pub pause_after : ℕ → ℕ
pause_after k = min (2 ^ k) 60 * second

-- Whether nothing came on the channel in the pause.
abbrev pub undisturbed : Wake → Bool
undisturbed elapsed = true
undisturbed (woken cmd) = false

unfoldable pub pauses_from : ℕ → List Attempt → List (ℕ × Bool)
pauses_from k [] = []
pauses_from k (attempt ∷ attempts) =
    (pause_after k, undisturbed attempt.wake) ∷ pauses_from (k + 1) attempts

-- No connection, no Shutdown that waits, and none that ends the pause.
unfoldable pub Fails : PeerSessionCtx → ℕ → List Attempt → Type 0
Fails ctx hold [] = Unit
Fails ctx hold (attempt ∷ attempts) =
    (drain_queue attempt.queued ≡ false)
    × ((e : BgpError) × ((connect ctx attempt.offer hold).1 ≡ refused e))
    × (stops attempt.wake ≡ false)
    × Fails ctx hold attempts

pauses_in-append : (xs ys : List Effect) → pauses_in (xs ++ ys) ≡ pauses_in xs ++ pauses_in ys
unfolding pauses_in
pauses_in-append [] ys = refl
pauses_in-append (wrote b ∷ xs) ys = pauses_in-append xs ys
pauses_in-append (emitted e ∷ xs) ys = pauses_in-append xs ys
pauses_in-append (state_set s ∷ xs) ys = pauses_in-append xs ys
pauses_in-append (slept d all ∷ xs) ys = ap (◌∷◌ (d, all)) (pauses_in-append xs ys)

elapses-undisturbed : (w : Wake) → elapses w ≡ undisturbed w
unfolding elapses
elapses-undisturbed elapsed = refl
elapses-undisturbed (woken cmd) = refl

Greets-pauses_in : (out : List Effect) → Greets out → pauses_in out ≡ []
unfolding Greets pauses_in
Greets-pauses_in [] h = refl
Greets-pauses_in (wrote b ∷ out) (f, h) = Greets-pauses_in out h
Greets-pauses_in (emitted e ∷ out) h = elim h [ ]
Greets-pauses_in (state_set s ∷ out) h = elim h [ ]
Greets-pauses_in (slept d all ∷ out) h = elim h [ ]

doubled : (k : ℕ) → min (pause_after k * 2) reconnect_backoff_max ≡ pause_after (k + 1)
doubled k = let e : suc k ≡ k + 1 = omega arith in omega (arith, pow-suc 2 k, ap (λ x. 2 ^ x) e)

module _ (latest : ℕ) (ctx : PeerSessionCtx) where
  after_connect-refused :
      (pause : ℕ) (attempt : Attempt) (r : List Effect × ConnectResult) (e : BgpError)
      → r.1 ≡ refused e
      → after_connect latest ctx pause attempt r ≡ value (r.0, pausing pause)
  unfolding after_connect
  after_connect-refused pause attempt r e c =
      ap (λ x. after_connect latest ctx pause attempt (r.0, x)) c

  run_from-pauses :
      (k : ℕ) (attempts : List Attempt)
      → Fails ctx (our_hold latest ctx) attempts
      → (out : List Effect) × (run_from latest ctx (pause_after k) attempts
          ≡ value (out, pausing (pause_after (k + length attempts))))
        × (pauses_in out ≡ pauses_from k attempts)
  unfolding run_from pauses_in pauses_from Fails
  run_from-pauses k [] h =
      ([], let e : k ≡ k + 0 = omega arith in ap (λ x. value ([], pausing (pause_after x))) e, refl)
  run_from-pauses k (attempt ∷ attempts) (q, (e, c), w, hs) =
      let (out, ran, same) = run_from-pauses (k + 1) attempts hs in
      let tried = connect ctx attempt.offer (our_hold latest ctx) in
      let next : k + 1 + length attempts ≡ k + suc (length attempts) = omega arith in
      let before =
        (state_set connecting ∷ tried.0)
        ++ (state_set backoff ∷ slept (pause_after k) (elapses attempt.wake) ∷ []) in
      (
        before ++ out,
        rw (q, after_connect-refused (pause_after k) attempt tried e c, w, doubled k, ran, next)
            refl,
        pauses_in-append before out
            ∙ ap (λ x. x ++ pauses_in out) (pauses_in-append (state_set connecting ∷ tried.0) _)
            ∙ rw
                (
                  Greets-pauses_in tried.0 (connect-Greets ctx attempt.offer (our_hold latest ctx)),
                  elapses-undisturbed attempt.wake,
                  same,
                )
                refl,
      )

-- For attempts none of which gets a session, with no Shutdown that waits and no end of the channel
-- or Shutdown in a pause, the task goes on. The pause after the k-th of them, counted from 0, is set
-- to `min (2 ^ k) 60` seconds, and so is the one that would come next; it lasts as long if nothing
-- comes on the channel, and an Announce or Withdraw ends it at once.
pub run-pauses :
    (latest : ℕ) (ctx : PeerSessionCtx) (attempts : List Attempt)
    → Fails ctx (our_hold latest ctx) attempts
    → (out : List Effect) × (run latest ctx attempts
        ≡ value (out, pausing (pause_after (length attempts))))
      × (pauses_in out ≡ pauses_from 0 attempts)
unfolding run
run-pauses latest ctx attempts h =
    let (out, ran, same) = run_from-pauses latest ctx 0 attempts h in
    let e : 0 + length attempts ≡ length attempts = omega arith in
    (out, ran ∙ ap (λ x. value (out, pausing (pause_after x))) e, same)
