-- ===== src/Forwarder/Threading/Fit.antt =====
-- The frames of the pool keep their size, and their lengths stay within it.
use lb.Prelude.{
  List, Option, [], ◌∷◌, ℕ, zero, suc, none, some, true, false, ◌≡◌, arith, length, refl, set, ◌∙◌,
  get_elem?, replicate, length-replicate, ltb,
}
use lb.Prelude.Checked.{Checked, value, panic, if-holds}
use lb.Types.Net.{Bytes, Ipv4Addr}
use lb.Hashing.Permutation.{Hasher}
use lb.Forwarder.ArrayQueue.{ArrayQueue}
use lb.Forwarder.PacketBuf.{PacketBuf, packet_buf_size, length-overwrite}
use lb.Forwarder.PacketBuf.{new as new_frame}
use lb.Forwarder.PacketPool.{write_from}
use lb.Forwarder.PacketPool.{new as new_pool}
use lb.Forwarder.Rewriter.Steps.{RewriterThread}
use mathlib.Core.Path.{subst}
use lb.Forwarder.Threading.Frames.{reached}
use lb.Forwarder.Threading.System.{
  System, Rewriter, Action, Shared, steering_alloc, steering_push, steering_free, rewriter_pop,
  rewriter_free, rewriter_frame, muxer_pop, muxer_send, muxer_free, do_alloc, push_rx, assigned,
  push_frame, pop_rx, after_frame, do_rewriter_free, pop_tx, do_send, sent_batch, copied, queue_of,
  batch_drain_size, do_frame, step, run, start, with_rewriter, rewriter_with, steering_with,
  muxer_with, front_frame, write_front, write_held,
}
use lb.Forwarder.Threading.Worker.{Verdict}
use lb.Forwarder.Threading.Worker.Sizes.{Whole, WholeThen, process_frame-Whole}

-- So does every frame.
unfoldable pub AllWhole : List PacketBuf → Type 0
AllWhole [] = Unit
AllWhole (p ∷ ps) = Whole p × AllWhole ps

AllWhole-get :
    (ps : List PacketBuf) (i : ℕ) (p : PacketBuf) → AllWhole ps → get_elem? ps i ≡ some p → Whole p
unfolding AllWhole
AllWhole-get [] i p h e = absurd (cc e)
AllWhole-get (q ∷ ps) zero p (h, hs) e = let same : q ≡ p = cc e in subst Whole same h
AllWhole-get (q ∷ ps) (suc i) p (h, hs) e = AllWhole-get ps i p hs e

AllWhole-set :
    (ps : List PacketBuf) (i : ℕ) (p : PacketBuf) → AllWhole ps → Whole p → AllWhole (set ps i p)
unfolding AllWhole
AllWhole-set [] i p hs h = tt
AllWhole-set (q ∷ ps) zero p (g, hs) h = (h, hs)
AllWhole-set (q ∷ ps) (suc i) p (g, hs) h = (g, AllWhole-set ps i p hs h)

AllWhole-replicate : (n : ℕ) (p : PacketBuf) → Whole p → AllWhole (replicate n p)
unfolding AllWhole
AllWhole-replicate zero p h = tt
AllWhole-replicate (suc n) p h = (h, AllWhole-replicate n p h)

write_from-Whole : (p : PacketBuf) (src : Bytes) → Whole p → Whole (write_from p src)
unfolding write_from
write_from-Whole p src h = record {
  size = length-overwrite p.bytes 0 _ ∙ h.size;
  within = omega arith;
}

write_held-AllWhole :
    (ps : List PacketBuf) (held : List ℕ) (pkt : Bytes)
    → AllWhole ps
    → AllWhole (write_held ps held pkt)
unfolding write_held
write_held-AllWhole ps [] pkt hs = hs
write_held-AllWhole ps (idx ∷ held) pkt hs = written (get_elem? ps idx) refl
  where
    written :
        (o : Option PacketBuf)
        → get_elem? ps idx ≡ o
        → AllWhole (elim o [ none ↦ ps | some frame ↦ set ps idx (write_from frame pkt) ])
    written none e = hs
    written (some frame) e =
        AllWhole-set ps idx (write_from frame pkt) hs
          (write_from-Whole frame pkt (AllWhole-get ps idx frame hs e))

write_front-AllWhole :
    (ps : List PacketBuf) (held : List ℕ) (p : PacketBuf)
    → AllWhole ps
    → Whole p
    → AllWhole (write_front ps held p)
unfolding write_front
write_front-AllWhole ps [] p hs h = hs
write_front-AllWhole ps (idx ∷ held) p hs h = AllWhole-set ps idx p hs h

front_frame-Whole :
    (ps : List PacketBuf) (held : List ℕ) (p : PacketBuf)
    → AllWhole ps
    → front_frame ps held ≡ some p
    → Whole p
unfolding front_frame
front_frame-Whole ps [] p hs e = absurd (cc e)
front_frame-Whole ps (idx ∷ held) p hs e = AllWhole-get ps idx p hs e

new_frame-Whole : Whole new_frame
unfolding new_frame
new_frame-Whole = record { size = length-replicate {A = ℕ} packet_buf_size 0; within = omega arith }

module _ (A : ArrayQueue) where
  abbrev KeptWhole : System A → Type 0
  KeptWhole s = AllWhole s.pool.frames

  do_alloc-Whole :
      (s : System A) (pkt : Bytes) (held rejected : List ℕ)
      → KeptWhole s
      → KeptWhole (do_alloc A s pkt held rejected)
  unfolding do_alloc steering_with
  do_alloc-Whole s pkt [] [] hs = write_held-AllWhole s.pool.frames _ pkt hs
  do_alloc-Whole s pkt (idx ∷ held) rejected hs = hs
  do_alloc-Whole s pkt [] (idx ∷ rejected) hs = hs

  push_rx-Whole :
      (s : System A) (j : ℕ) (o : Option A.Q) → KeptWhole s → KeptWhole (push_rx A s j o)
  unfolding push_rx
  push_rx-Whole s j none hs = hs
  push_rx-Whole s j (some q) hs = hs

  assigned-Whole : (s : System A) (c : Checked ℕ) → KeptWhole s → KeptWhole (assigned A s c)
  unfolding assigned
  assigned-Whole s panic hs = hs
  assigned-Whole s (value j) hs = push_rx-Whole s j (get_elem? s.rx_queues j) hs

  push_frame-Whole :
      (hasher : Hasher) (s : System A) (o : Option PacketBuf)
      → KeptWhole s
      → KeptWhole (push_frame A hasher s o)
  unfolding push_frame
  push_frame-Whole hasher s none hs = hs
  push_frame-Whole hasher s (some p) hs =
      assigned-Whole s (queue_of hasher (length s.rx_queues) p) hs

  pop_rx-Whole :
      (s : System A) (j : ℕ) (r : Option Rewriter) (q : Option A.Q)
      → KeptWhole s
      → KeptWhole (pop_rx A s j r q)
  unfolding pop_rx rewriter_with
  pop_rx-Whole s j (some r) (some q) hs =
      if-holds KeptWhole (ltb (length r.hands.held) batch_drain_size) _ _ (λ _. hs) (λ _. hs)
  pop_rx-Whole s j (some r) none hs = hs
  pop_rx-Whole s j none q hs = hs

  pop_tx-Whole :
      (n : ℕ) (s : System A) (j : ℕ) (q : Option A.Q) → KeptWhole s → KeptWhole (pop_tx A n s j q)
  unfolding pop_tx
  pop_tx-Whole n s j none hs = hs
  pop_tx-Whole n s j (some q) hs =
      if-holds KeptWhole (ltb (length s.muxer.held) n) _ _ (λ _. hs) (λ _. hs)

  after_frame-Whole :
      (s : System A) (j : ℕ) (r : Rewriter) (c : Checked Verdict) (q : Option A.Q)
      → KeptWhole s
      → WholeThen c
      → KeptWhole (after_frame A s j r c q)
  unfolding after_frame rewriter_with
  after_frame-Whole s j r panic q hs h = hs
  after_frame-Whole s j r (value (w, p, true)) none hs h = hs
  after_frame-Whole s j r (value (w, p, true)) (some q) hs h =
      write_front-AllWhole s.pool.frames r.hands.held p hs h
  after_frame-Whole s j r (value (w, p, false)) q hs h =
      write_front-AllWhole s.pool.frames r.hands.held p hs h

  sent_batch-Whole :
      (s : System A) (c : Checked (List PacketBuf)) → KeptWhole s → KeptWhole (sent_batch A s c)
  unfolding sent_batch
  sent_batch-Whole s panic hs = hs
  sent_batch-Whole s (value batch) hs = hs

module _ (A : ArrayQueue) (hasher : Hasher) (src_ipv4 : Ipv4Addr) (batch_size : ℕ) where
  frame_step-Whole :
      (s : System A) (j : ℕ) (shared : Shared) (now : ℕ) (r : Option Rewriter)
      → KeptWhole A s
      → KeptWhole A (
          with_rewriter A s r (λ r'.
            do_frame A hasher src_ipv4 s j shared now r' (front_frame s.pool.frames r'.hands.held)))
  unfolding with_rewriter do_frame
  frame_step-Whole s j shared now none hs = hs
  frame_step-Whole s j shared now (some r) hs =
      done (front_frame s.pool.frames r.hands.held)
        (λ p e. front_frame-Whole s.pool.frames r.hands.held p hs e)
    where
      done :
          (o : Option PacketBuf)
          → ((p : PacketBuf) → o ≡ some p → Whole p)
          → KeptWhole A (do_frame A hasher src_ipv4 s j shared now r o)
      done none h = hs
      done (some p) h = after_frame-Whole A s j r _ (get_elem? s.tx_queues j) hs (
          process_frame-Whole hasher shared.health shared.vip_matcher shared.lookup_tables r.worker
            p src_ipv4 now (h p refl))

  free_step-Whole :
      (s : System A) (j : ℕ) (r : Option Rewriter)
      → KeptWhole A s
      → KeptWhole A (with_rewriter A s r (do_rewriter_free A s j))
  unfolding with_rewriter do_rewriter_free rewriter_with
  free_step-Whole s j none hs = hs
  free_step-Whole s j (some r) hs = hs

  step-Whole :
      (a : Action) (s : System A)
      → KeptWhole A s
      → KeptWhole A (step A hasher src_ipv4 batch_size a s)
  unfolding step steering_with muxer_with do_send
  step-Whole (steering_alloc pkt) s hs =
      do_alloc-Whole A s pkt s.steering.held s.steering.rejected hs
  step-Whole steering_push s hs =
      push_frame-Whole A hasher s (front_frame s.pool.frames s.steering.held) hs
  step-Whole steering_free s hs = hs
  step-Whole (rewriter_pop j) s hs =
      pop_rx-Whole A s j (get_elem? s.rewriters j) (get_elem? s.rx_queues j) hs
  step-Whole (rewriter_free j) s hs = free_step-Whole s j (get_elem? s.rewriters j) hs
  step-Whole (rewriter_frame j shared now) s hs =
      frame_step-Whole s j shared now (get_elem? s.rewriters j) hs
  step-Whole (muxer_pop j) s hs = pop_tx-Whole A batch_size s j (get_elem? s.tx_queues j) hs
  step-Whole muxer_send s hs = sent_batch-Whole A s (copied s.pool.frames s.muxer.held) hs
  step-Whole muxer_free s hs = hs

  run-Whole :
      (actions : List Action) (s : System A)
      → KeptWhole A s
      → KeptWhole A (run A hasher src_ipv4 batch_size actions s)
  unfolding run
  run-Whole [] s hs = hs
  run-Whole (a ∷ actions) s hs =
      run-Whole actions (step A hasher src_ipv4 batch_size a s) (step-Whole a s hs)

-- On every schedule from `start`, with every packet that comes in and whatever the control plane
-- changes, each frame of the pool has its 2048 bytes and a length of at most 2048: packets of any
-- size are written to the frames, and encapsulated in them.
pub run-AllWhole :
    (A : ArrayQueue) (hasher : Hasher) (src_ipv4 : Ipv4Addr) (batch_size : ℕ)
    (workers : List RewriterThread) (actions : List Action)
    → AllWhole (reached A hasher src_ipv4 batch_size workers actions).pool.frames
unfolding reached start new_pool
run-AllWhole A hasher src_ipv4 batch_size workers actions =
    run-Whole A hasher src_ipv4 batch_size actions (start A batch_size workers)
      (AllWhole-replicate _ new_frame new_frame-Whole)
