-- ===== src/Forwarder/Threading/Steps.antt =====
-- Every action keeps every measure of the indices, while a free list that an index is given back to
-- has room.
use lb.Forwarder.PacketPool.{push_or_lose}
use lb.Prelude.{
  List, Option, [], ap, arith, false, get_elem?, inl, inr, length, ltb, none, refl, some, true, ℕ,
  ◌+◌, ◌<◌, ◌∷◌, ◌≡◌, ◌≢◌, List-cases, dec_lt,
}
use lb.Prelude.Checked.{Checked, value, panic, if-holds, Checked-cases}
use lb.Types.Net.{Bytes, Ipv4Addr}
use lb.Hashing.Permutation.{Hasher}
use lb.Forwarder.PacketBuf.{PacketBuf}
use lb.Forwarder.ArrayQueue.{ArrayQueue}
use lb.Forwarder.Threading.Worker.{Verdict, process_frame}
use lb.Forwarder.Threading.Hands.{Hands, empty_hands, take_from, give_to, give_back, reject, popped}
use lb.Forwarder.Threading.System.{
  System, sent_batch, copied, Rewriter, steering_with, muxer_with, rewriter_with, do_alloc, push_rx,
  assigned, push_frame, pop_rx, after_frame, do_rewriter_free, pop_tx, do_send, queue_of,
  batch_drain_size, do_frame, Shared,
}
use lb.Forwarder.Threading.Measure.{
  Measure, measure, in_queue, in_hands, in_rewriter, total-set, take_from-measure, give_to-measure,
  give_back-measure, reject-measure,
}

module _ (A : ArrayQueue) where
  pub take_from-capacity : (q : A.Q) (h : Hands) → A.capacity (take_from A q h).0 ≡ A.capacity q
  unfolding take_from popped
  take_from-capacity q h = elim (List-cases (A.contents q)) [
    | inl e ↦ rw (A.pop-empty q e) refl
    | inr (x, xs, e) ↦ let (q', p, _, c) = A.pop-front q x xs e in rw (p, popped) c
  ]

  pub give_back-capacity :
      (q : A.Q) (held rejected : List ℕ) → A.capacity (give_back A q held rejected).0 ≡ A.capacity q
  unfolding give_back push_or_lose
  give_back-capacity q held [] = refl
  give_back-capacity q held (idx ∷ rejected) =
      elim (dec_lt (length (A.contents q)) (A.capacity q)) [
        | yes h ↦ let (q', p, _, c) = A.push-room q idx h in rw (push_or_lose, p) c
        | no h ↦ rw (push_or_lose, A.push-full q idx (omega arith)) refl
      ]

module _ (A : ArrayQueue) (m : Measure) where
  -- The measure, and the size of the free list.
  abbrev pub Keeps : System A → System A → Type 0
  Keeps s s' =
      (measure A m s' ≡ measure A m s)
      × (A.capacity s'.pool.free_list ≡ A.capacity s.pool.free_list)

  pub steering_with-measure :
      (s : System A) (r : A.Q × Hands)
      → in_queue A m r.0 + in_hands A m r.1
        ≡ in_queue A m s.pool.free_list + in_hands A m s.steering
      → A.capacity r.0 ≡ A.capacity s.pool.free_list
      → Keeps s (steering_with A s r)
  unfolding steering_with measure
  steering_with-measure s r e c = (omega (arith, e), c)

  pub muxer_with-measure :
      (s : System A) (r : A.Q × Hands)
      → in_queue A m r.0 + in_hands A m r.1 ≡ in_queue A m s.pool.free_list + in_hands A m s.muxer
      → A.capacity r.0 ≡ A.capacity s.pool.free_list
      → Keeps s (muxer_with A s r)
  unfolding muxer_with measure
  muxer_with-measure s r e c = (omega (arith, e), c)

  pub do_alloc-measure :
      (s : System A) (pkt : Bytes) (held rejected : List ℕ)
      → s.steering.held ≡ held
      → s.steering.rejected ≡ rejected
      → Keeps s (do_alloc A s pkt held rejected)
  unfolding do_alloc steering_with measure in_hands
  do_alloc-measure s pkt [] [] h r = (
    omega (arith, take_from-measure A m s.pool.free_list empty_hands, ap m.of h, ap m.of r),
    take_from-capacity A s.pool.free_list empty_hands,
  )
  do_alloc-measure s pkt (idx ∷ held) rejected h r = (refl, refl)
  do_alloc-measure s pkt [] (idx ∷ rejected) h r = (refl, refl)

  pub push_rx-measure :
      (s : System A) (j : ℕ) (q : Option A.Q)
      → get_elem? s.rx_queues j ≡ q
      → Keeps s (push_rx A s j q)
  unfolding push_rx measure in_hands
  push_rx-measure s j none e = (refl, refl)
  push_rx-measure s j (some q) e = (
    omega (
      arith,
      give_to-measure A m q s.steering.held s.steering.rejected,
      total-set (in_queue A m) s.rx_queues j q (give_to A q s.steering.held s.steering.rejected).0
          e,
    ),
    refl,
  )

  pub push_frame-measure :
      (hasher : Hasher) (s : System A) (f : Option PacketBuf) → Keeps s (push_frame A hasher s f)
  unfolding push_frame assigned
  push_frame-measure hasher s none = (refl, refl)
  push_frame-measure hasher s (some f) =
      elim (Checked-cases (queue_of hasher (length s.rx_queues) f)) [
        | inl e ↦ rw e (refl, refl)
        | inr (j, e) ↦ rw e (push_rx-measure s j (get_elem? s.rx_queues j) refl)
      ]

  pub pop_rx-measure :
      (s : System A) (j : ℕ) (r : Option Rewriter) (q : Option A.Q)
      → get_elem? s.rewriters j ≡ r
      → get_elem? s.rx_queues j ≡ q
      → Keeps s (pop_rx A s j r q)
  unfolding pop_rx rewriter_with measure in_rewriter
  pop_rx-measure s j none q e h = (refl, refl)
  pop_rx-measure s j (some r) none e h = (refl, refl)
  pop_rx-measure s j (some r) (some q) e h =
      let taken = take_from A q r.hands in
      let r' : Rewriter = record { worker = r.worker; hands = taken.1 } in
      if-holds (Keeps s) (ltb (length r.hands.held) batch_drain_size) _ s
        (λ _. omega (
          arith,
          take_from-measure A m q r.hands,
          total-set (in_queue A m) s.rx_queues j q taken.0 h,
          total-set (in_rewriter A m) s.rewriters j r r' e,
        ))
        (λ _. (refl, refl))

  pub after_frame-measure :
      (s : System A) (j : ℕ) (r : Rewriter) (v : Checked Verdict) (q : Option A.Q)
      → get_elem? s.rewriters j ≡ some r
      → get_elem? s.tx_queues j ≡ q
      → Keeps s (after_frame A s j r v q)
  unfolding after_frame rewriter_with measure in_rewriter in_hands
  after_frame-measure s j r panic q e h = (refl, refl)
  after_frame-measure s j r (value (w, f, true)) none e h = (refl, refl)
  after_frame-measure s j r (value (w, f, true)) (some q) e h =
      let given = give_to A q r.hands.held r.hands.rejected in
      let r' : Rewriter = record { worker = w; hands = given.1 } in
      (
        omega (
          arith,
          give_to-measure A m q r.hands.held r.hands.rejected,
          total-set (in_queue A m) s.tx_queues j q given.0 h,
          total-set (in_rewriter A m) s.rewriters j r r' e,
        ),
        refl,
      )
  after_frame-measure s j r (value (w, f, false)) q e h =
      let r' : Rewriter = record { worker = w; hands = reject r.hands.held r.hands.rejected } in
      (
        omega (
          arith,
          reject-measure A m r.hands.held r.hands.rejected,
          total-set (in_rewriter A m) s.rewriters j r r' e,
        ),
        refl,
      )

  pub do_frame-measure :
      (hasher : Hasher) (src_ipv4 : Ipv4Addr) (s : System A) (j : ℕ) (shared : Shared) (now : ℕ)
      (r : Rewriter) (f : Option PacketBuf)
      → get_elem? s.rewriters j ≡ some r
      → Keeps s (do_frame A hasher src_ipv4 s j shared now r f)
  unfolding do_frame
  do_frame-measure hasher src_ipv4 s j shared now r none e = (refl, refl)
  do_frame-measure hasher src_ipv4 s j shared now r (some f) e =
      after_frame-measure s j r
        (process_frame hasher shared.health shared.vip_matcher shared.lookup_tables r.worker f
          src_ipv4 now)
        (get_elem? s.tx_queues j) e refl

  pub do_rewriter_free-measure :
      (s : System A) (j : ℕ) (r : Rewriter)
      → get_elem? s.rewriters j ≡ some r
      → (r.hands.rejected ≢ [] → length (A.contents s.pool.free_list) < A.capacity s.pool.free_list)
      → Keeps s (do_rewriter_free A s j r)
  unfolding do_rewriter_free rewriter_with measure in_rewriter in_hands
  do_rewriter_free-measure s j r e room =
      let given = give_back A s.pool.free_list r.hands.held r.hands.rejected in
      let r' : Rewriter = record { worker = r.worker; hands = given.1 } in
      (
        omega (
          arith,
          give_back-measure A m s.pool.free_list r.hands.held r.hands.rejected room,
          total-set (in_rewriter A m) s.rewriters j r r' e,
        ),
        give_back-capacity A s.pool.free_list r.hands.held r.hands.rejected,
      )

  pub pop_tx-measure :
      (batch_size : ℕ) (s : System A) (j : ℕ) (q : Option A.Q)
      → get_elem? s.tx_queues j ≡ q
      → Keeps s (pop_tx A batch_size s j q)
  unfolding pop_tx measure
  pop_tx-measure batch_size s j none e = (refl, refl)
  pop_tx-measure batch_size s j (some q) e =
      let taken = take_from A q s.muxer in
      if-holds (Keeps s) (ltb (length s.muxer.held) batch_size) _ s
        (λ _. omega (
          arith,
          take_from-measure A m q s.muxer,
          total-set (in_queue A m) s.tx_queues j q taken.0 e,
        ))
        (λ _. (refl, refl))

  sent_batch-measure : (s : System A) (c : Checked (List PacketBuf)) → Keeps s (sent_batch A s c)
  unfolding sent_batch measure in_hands
  sent_batch-measure s panic = (refl, refl)
  sent_batch-measure s (value batch) =
      (omega (arith, m.adds s.muxer.rejected s.muxer.held, m.none_of), refl)

  pub do_send-measure : (s : System A) → Keeps s (do_send A s)
  unfolding do_send
  do_send-measure s = sent_batch-measure s (copied s.pool.frames s.muxer.held)
