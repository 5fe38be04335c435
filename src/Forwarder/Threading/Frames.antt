-- ===== src/Forwarder/Threading/Frames.antt =====
-- The frames of the pool from the start of the threads on.
use lb.Prelude.{
  List, [], ap, arith, if◌then◌else◌, length, length-append, ltb, map, refl, suc, sym, zero, ℕ,
  ◌++◌, ◌∙◌, ◌∷◌, ◌≡◌, ◌≤◌, ◌+◌,
}
use lb.Types.Net.{Ipv4Addr}
use lb.Hashing.Permutation.{Hasher}
use lb.Forwarder.ArrayQueue.{ArrayQueue}
use lb.Forwarder.PacketPool.{fill, push_or_lose}
use lb.Forwarder.PacketPool.{new as new_pool}
use lb.Forwarder.Rewriter.Steps.{RewriterThread}
use lb.Forwarder.Threading.Hands.{empty_hands}
use lb.Forwarder.Threading.System.{
  System, Rewriter, Action, run, start, queue_capacity, pool_size_for,
}
use lb.Forwarder.Threading.Measure.{Measure, measure, in_queue, in_hands, in_rewriter, total}
use lb.Forwarder.Threading.Ownership.{
  Full, count, count-append, occurrences, sizes, run-Full, run-measure,
}

-- The indices below `n`, in order.
unfoldable pub below : ℕ → List ℕ
below zero = []
below (suc n) = below n ++ (n ∷ [])

length-below : (n : ℕ) → length (below n) ≡ n
unfolding below
length-below zero = refl
length-below (suc n) = omega (arith, length-below n, length-append (below n) (n ∷ []))

count-below : (i n : ℕ) → count i (below n) ≡ (if ltb i n then 1 else 0)
unfolding below count
count-below i zero = ground arith
count-below i (suc n) =
    let h = count-below i n in let e = count-append i (below n) (n ∷ []) in ground (arith, h, e)

module _ (A : ArrayQueue) where
  fill-below :
      (n : ℕ) (q : A.Q)
      → A.contents q ≡ []
      → n ≤ A.capacity q
      → (A.contents (fill A n q) ≡ below n) × (A.capacity (fill A n q) ≡ A.capacity q)
  unfolding fill below push_or_lose
  fill-below zero q e h = (e, refl)
  fill-below (suc n) q e h =
      let (c, k) = fill-below n q e (omega arith) in
      let (q', p, c', k') =
        A.push-room (fill A n q) n (omega (arith, ap length c, length-below n, k, h)) in
      (rw (push_or_lose, p) (c' ∙ ap (λ xs. xs ++ (n ∷ [])) c), rw (push_or_lose, p) (k' ∙ k))

  total-map :
      {X : Type 0} (f : X → ℕ) (g : RewriterThread → X) (ws : List RewriterThread)
      → ((w : RewriterThread) → f (g w) ≡ 0)
      → total f (map g ws) ≡ 0
  unfolding total
  total-map f g [] z = refl
  total-map f g (w ∷ ws) z = omega (arith, z w, total-map f g ws z)

  new-below :
      (n : ℕ) → (A.contents (fill A n (A.new n)) ≡ below n) × (A.capacity (fill A n (A.new n)) ≡ n)
  new-below n =
      let (c, k) = fill-below n (A.new n) (A.contents-new n) (omega (arith, A.capacity-new n)) in
      (c, k ∙ A.capacity-new n)

  start-measure :
      (m : Measure) (batch_size : ℕ) (ws : List RewriterThread)
      → measure A m (start A batch_size ws) ≡ m.of (below (pool_size_for batch_size (length ws)))
  unfolding measure start new_pool in_queue in_hands in_rewriter
  start-measure m batch_size ws =
      let empty : m.of (A.contents (A.new queue_capacity)) ≡ 0 =
        ap m.of (A.contents-new queue_capacity) ∙ m.none_of in
      omega (
        arith,
        ap m.of (new-below (pool_size_for batch_size (length ws))).0,
        m.none_of,
        total-map (in_queue A m) (λ _. A.new queue_capacity) ws (λ _. empty),
        total-map (in_rewriter A m) (λ w. record { worker = w; hands = empty_hands }) ws
            (λ w. omega (arith, m.none_of)),
      )

  start-Full : (batch_size : ℕ) (ws : List RewriterThread) → Full A (start A batch_size ws)
  unfolding start new_pool sizes
  start-Full batch_size ws =
      let n = pool_size_for batch_size (length ws) in
      start-measure sizes batch_size ws ∙ length-below n ∙ sym (new-below n).1

-- The state that a schedule leads to.
unfoldable pub reached :
    (A : ArrayQueue) → Hasher → Ipv4Addr → ℕ → List RewriterThread → List Action → System A
unfolding run start
reached A hasher src_ipv4 batch_size workers actions =
    run A hasher src_ipv4 batch_size actions (start A batch_size workers)

-- On every schedule from `start`, with every packet that comes in and whatever the control plane
-- changes, each index of the pool is in exactly one place, once: the free list, an RX or TX queue,
-- or the hands of one thread. No other index is anywhere. So no frame is lost, and none is held by
-- two threads.
pub run-occurrences :
    (A : ArrayQueue) (hasher : Hasher) (src_ipv4 : Ipv4Addr) (batch_size : ℕ)
    (workers : List RewriterThread) (actions : List Action) (i : ℕ)
    → measure A (occurrences i) (reached A hasher src_ipv4 batch_size workers actions)
      ≡ (if ltb i (pool_size_for batch_size (length workers)) then 1 else 0)
unfolding occurrences reached
run-occurrences A hasher src_ipv4 batch_size workers actions i =
    run-measure A hasher src_ipv4 batch_size (occurrences i) actions (start A batch_size workers)
      (start-Full A batch_size workers)
    ∙ start-measure A (occurrences i) batch_size workers
    ∙ count-below i (pool_size_for batch_size (length workers))

rejected_le :
    (A : ArrayQueue) (rs : List Rewriter)
    → total (λ r. length r.hands.rejected) rs ≤ total (in_rewriter A sizes) rs
unfolding total in_rewriter in_hands sizes
rejected_le A [] = omega arith
rejected_le A (r ∷ rs) = omega (arith, rejected_le A rs)

-- How many frames are to be given back to the free list.
unfoldable pub to_free : (A : ArrayQueue) → System A → ℕ
unfolding total
to_free A s =
    length s.steering.rejected
    + total (λ r. length r.hands.rejected) s.rewriters
    + length s.muxer.rejected

room_for :
    (A : ArrayQueue) (s : System A)
    → Full A s
    → length (A.contents s.pool.free_list) + to_free A s ≤ A.capacity s.pool.free_list
unfolding to_free measure in_queue in_hands sizes
room_for A s f = omega (arith, f, rejected_le A s.rewriters)

-- On every schedule from `start`, the free list has room for all the frames that the threads have
-- still to give back to it, so that `free`, which ignores a full list, never loses one.
pub run-to_free :
    (A : ArrayQueue) (hasher : Hasher) (src_ipv4 : Ipv4Addr) (batch_size : ℕ)
    (workers : List RewriterThread) (actions : List Action)
    → length (A.contents (reached A hasher src_ipv4 batch_size workers actions).pool.free_list)
        + to_free A (reached A hasher src_ipv4 batch_size workers actions)
      ≤ A.capacity (reached A hasher src_ipv4 batch_size workers actions).pool.free_list
unfolding reached
run-to_free A hasher src_ipv4 batch_size workers actions =
    room_for A (run A hasher src_ipv4 batch_size actions (start A batch_size workers)) (
      run-Full A hasher src_ipv4 batch_size actions (start A batch_size workers)
        (start-Full A batch_size workers))
