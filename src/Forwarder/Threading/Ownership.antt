-- ===== src/Forwarder/Threading/Ownership.antt =====
-- Where every frame index is, on every schedule of the threads.
use lb.Prelude.{
  List, Option, [], arith, get_elem?, if◌then◌else◌, length, length-append, none, refl, some, sym,
  ℕ, ◌++◌, ◌+◌, ◌<◌, ◌==◌, ◌∙◌, ◌∷◌, ◌≡◌, ◌≢◌,
}
use lb.Types.Net.{Ipv4Addr}
use lb.Hashing.Permutation.{Hasher}
use lb.Forwarder.ArrayQueue.{ArrayQueue}
use lb.Forwarder.Threading.System.{
  System, Rewriter, Action, steering_alloc, steering_push, steering_free, rewriter_pop,
  rewriter_frame, rewriter_free, muxer_pop, muxer_send, muxer_free, step, run, with_rewriter,
  front_frame, do_rewriter_free, do_frame,
}
use lb.Forwarder.Threading.Measure.{
  Measure, measure, in_queue, in_hands, in_rewriter, total-get, give_back-measure,
}
use lb.Forwarder.Threading.Steps.{
  Keeps, steering_with-measure, muxer_with-measure, do_alloc-measure, push_frame-measure,
  pop_rx-measure, do_frame-measure, do_rewriter_free-measure, pop_tx-measure, do_send-measure,
  give_back-capacity,
}

unfoldable pub count : ℕ → List ℕ → ℕ
count i [] = 0
count i (x ∷ xs) = (if x == i then 1 else 0) + count i xs

pub count-append : (i : ℕ) (xs ys : List ℕ) → count i (xs ++ ys) ≡ count i xs + count i ys
unfolding count
count-append i [] ys = omega arith
count-append i (x ∷ xs) ys = omega (arith, count-append i xs ys)

-- How often an index is there, and how many indices there are.
unfoldable pub occurrences : ℕ → Measure
unfolding count
occurrences i = record { of = count i; none_of = refl; adds = count-append i }

unfoldable pub sizes : Measure
sizes = record { of = length; none_of = refl; adds = length-append }

nonempty_length : (xs : List ℕ) → xs ≢ [] → 0 < length xs
nonempty_length [] h = absurd (h refl)
nonempty_length (x ∷ xs) h = omega arith

module _ (A : ArrayQueue) where
  -- As many indices as the free list has places.
  abbrev pub Full : System A → Type 0
  Full s = measure A sizes s ≡ A.capacity s.pool.free_list

  pub steering_room :
      (s : System A)
      → Full s
      → s.steering.rejected ≢ []
      → length (A.contents s.pool.free_list) < A.capacity s.pool.free_list
  unfolding measure in_queue in_hands sizes
  steering_room s f h = omega (arith, f, nonempty_length s.steering.rejected h)

  pub muxer_room :
      (s : System A)
      → Full s
      → s.muxer.rejected ≢ []
      → length (A.contents s.pool.free_list) < A.capacity s.pool.free_list
  unfolding measure in_queue in_hands sizes
  muxer_room s f h = omega (arith, f, nonempty_length s.muxer.rejected h)

  pub rewriter_room :
      (s : System A) (j : ℕ) (r : Rewriter)
      → Full s
      → get_elem? s.rewriters j ≡ some r
      → r.hands.rejected ≢ []
      → length (A.contents s.pool.free_list) < A.capacity s.pool.free_list
  unfolding measure in_queue in_rewriter in_hands sizes
  rewriter_room s j r f e h = omega (
    arith,
    f,
    nonempty_length r.hands.rejected h,
    total-get (in_rewriter A sizes) s.rewriters j r e,
  )

module _ (A : ArrayQueue) (hasher : Hasher) (src_ipv4 : Ipv4Addr) (batch_size : ℕ) where
  module _ (m : Measure) where
    for_rewriter :
        (s : System A) (f : Rewriter → System A) (r : Option Rewriter)
        → ((r' : Rewriter) → r ≡ some r' → Keeps A m s (f r'))
        → Keeps A m s (with_rewriter A s r f)
    unfolding with_rewriter
    for_rewriter s f none h = (refl, refl)
    for_rewriter s f (some r) h = h r refl

    step-Keeps :
        (a : Action) (s : System A) → Full A s → Keeps A m s (step A hasher src_ipv4 batch_size a s)
    unfolding step do_frame in_hands
    step-Keeps (steering_alloc pkt) s f =
        do_alloc-measure A m s pkt s.steering.held s.steering.rejected refl refl
    step-Keeps steering_push s f =
        push_frame-measure A m hasher s (front_frame s.pool.frames s.steering.held)
    step-Keeps steering_free s f =
        steering_with-measure A m s _
          (give_back-measure A m s.pool.free_list s.steering.held s.steering.rejected
            (steering_room A s f))
          (give_back-capacity A s.pool.free_list s.steering.held s.steering.rejected)
    step-Keeps (rewriter_pop j) s f =
        pop_rx-measure A m s j (get_elem? s.rewriters j) (get_elem? s.rx_queues j) refl refl
    step-Keeps (rewriter_free j) s f =
        for_rewriter s (do_rewriter_free A s j) (get_elem? s.rewriters j)
          (λ r e. do_rewriter_free-measure A m s j r e (rewriter_room A s j r f e))
    step-Keeps (rewriter_frame j shared now) s f =
        let frame = λ (r : Rewriter). front_frame s.pool.frames r.hands.held in
        for_rewriter s (λ r. do_frame A hasher src_ipv4 s j shared now r (frame r))
          (get_elem? s.rewriters j)
          (λ r e. do_frame-measure A m hasher src_ipv4 s j shared now r (frame r) e)
    step-Keeps (muxer_pop j) s f = pop_tx-measure A m batch_size s j (get_elem? s.tx_queues j) refl
    step-Keeps muxer_send s f = do_send-measure A m s
    step-Keeps muxer_free s f =
        muxer_with-measure A m s _
          (give_back-measure A m s.pool.free_list s.muxer.held s.muxer.rejected (muxer_room A s f))
          (give_back-capacity A s.pool.free_list s.muxer.held s.muxer.rejected)

  pub run-Full :
      (actions : List Action) (s : System A)
      → Full A s
      → Full A (run A hasher src_ipv4 batch_size actions s)
  unfolding run
  run-Full [] s f = f
  run-Full (a ∷ actions) s f =
      let s' = step A hasher src_ipv4 batch_size a s in
      let (e, c) = step-Keeps sizes a s f in run-Full actions s' (e ∙ f ∙ sym c)

  pub run-measure :
      (m : Measure) (actions : List Action) (s : System A)
      → Full A s
      → measure A m (run A hasher src_ipv4 batch_size actions s) ≡ measure A m s
  unfolding run
  run-measure m [] s f = refl
  run-measure m (a ∷ actions) s f =
      let s' = step A hasher src_ipv4 batch_size a s in
      let (e, c) = step-Keeps sizes a s f in
      run-measure m actions s' (e ∙ f ∙ sym c) ∙ (step-Keeps m a s f).0
