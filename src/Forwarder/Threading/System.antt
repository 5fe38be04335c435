-- ===== src/Forwarder/Threading/System.antt =====
-- The threads of `start` on their queues and the pool, as one state. An action is a part of a
-- thread's loop that makes at most one call of a queue; a schedule is any order of them. A thread
-- that would panic takes no step.
use lb.Forwarder.Threading.Worker.{process_frame, Verdict}
use lb.Prelude.{
  List, Option, [], get_elem?, none, set, some, ℕ, ◌∷◌, false, if◌then◌else◌, length, ltb, map,
  true, ◌++◌, ◌*◌, ◌+◌,
}
use lb.Prelude.Checked.{Checked, value, panic, ◌>>=◌}
use lb.Types.Net.{Bytes, IpAddr, Ipv4Addr}
use lb.Types.Backend.{HealthStatus, BackendPoolId}
use lb.Types.Packet.{from_ip_bytes}
use lb.Hashing.Permutation.{Hasher}
use lb.Hashing.Table.{LookupTable}
use lb.Forwarder.ArrayQueue.{ArrayQueue}
use lb.Forwarder.PacketPool.{new as new_pool}
use lb.Forwarder.PacketPool.{PacketPool, write_from}
use lb.Forwarder.PacketBuf.{PacketBuf, as_slice}
use lb.Forwarder.VipMatcher.{assign_queue, VipMatcher}
use lb.Forwarder.Rewriter.Steps.{RewriterThread}
use lb.Forwarder.Threading.Hands.{Hands, empty_hands, take_from, give_back, give_to, reject}

-- `BATCH_DRAIN_SIZE`.
abbrev pub batch_drain_size : ℕ
batch_drain_size = 64

-- What the control plane changes while the threads run, as a rewriter loads it.
pub record Shared : Type 0 where
  pub health : IpAddr → Option HealthStatus
  pub vip_matcher : VipMatcher
  pub lookup_tables : List (BackendPoolId × LookupTable)

pub record Rewriter : Type 0 where
  pub worker : RewriterThread
  pub hands : Hands

-- Of the steering thread, of a rewriter by its number, and of the muxer. `rewriter_frame` has the
-- state of the control plane and the time.
pub data Action : Type 0 where
  steering_alloc : Bytes → Action
  steering_push steering_free : Action
  rewriter_pop rewriter_free : ℕ → Action
  rewriter_frame : ℕ → Shared → ℕ → Action
  muxer_pop : ℕ → Action
  muxer_send muxer_free : Action

module _ (A : ArrayQueue) where
  pub record System : Type 0 where
    pub pool : PacketPool A
    pub rx_queues : List A.Q
    pub tx_queues : List A.Q
    pub steering : Hands
    pub rewriters : List Rewriter
    pub muxer : Hands
    pub sent : List PacketBuf

-- The queue of a frame.
unfoldable pub queue_of : Hasher → ℕ → PacketBuf → Checked ℕ
unfolding from_ip_bytes assign_queue as_slice
queue_of hasher num_queues frame = do
  slice ← as_slice frame
  parsed ← from_ip_bytes slice
  elim parsed [ none ↦ value 0 | some meta ↦ assign_queue hasher meta num_queues ]

-- `pool.get_mut(idx)` of the frame that was just allocated, if there was one.
unfoldable pub write_held : List PacketBuf → List ℕ → Bytes → List PacketBuf
unfolding write_from
write_held frames [] pkt = frames
write_held frames (idx ∷ held) pkt = elim (get_elem? frames idx) [
  | none ↦ frames
  | some frame ↦ set frames idx (write_from frame pkt)
]

-- The frame at the front of what a thread holds.
unfoldable pub front_frame : List PacketBuf → List ℕ → Option PacketBuf
front_frame frames [] = none
front_frame frames (idx ∷ held) = get_elem? frames idx

unfoldable pub write_front : List PacketBuf → List ℕ → PacketBuf → List PacketBuf
write_front frames [] frame = frames
write_front frames (idx ∷ held) frame = set frames idx frame

-- The frames that are copied into the send buffer; `&frame.data[..frame.len]` is a slice of each.
unfoldable pub copied : List PacketBuf → List ℕ → Checked (List PacketBuf)
unfolding as_slice
copied frames [] = value []
copied frames (idx ∷ held) = elim (get_elem? frames idx) [
  | none ↦ copied frames held
  | some frame ↦ do slice ← as_slice frame; rest ← copied frames held; value (frame ∷ rest)
]

module _ (A : ArrayQueue) where
  -- The free list after a call of it by the steering thread, and what is in its hands.
  unfoldable pub steering_with : System A → A.Q × Hands → System A
  steering_with s r = record s { pool = record s.pool { free_list = r.0 }; steering = r.1 }

  unfoldable pub muxer_with : System A → A.Q × Hands → System A
  muxer_with s r = record s { pool = record s.pool { free_list = r.0 }; muxer = r.1 }

  -- Rewriter `j` in its list.
  unfoldable pub rewriter_with : System A → ℕ → RewriterThread → Hands → System A
  rewriter_with s j worker hands = record s {
    rewriters = set s.rewriters j record { worker = worker; hands = hands };
  }

  -- With empty hands, and then `write_from` the packet.
  unfoldable pub do_alloc : System A → Bytes → List ℕ → List ℕ → System A
  unfolding take_from write_held steering_with
  do_alloc s pkt [] [] =
      let r = take_from A s.pool.free_list empty_hands in
      let s' = steering_with s r in
      record s' { pool = record s'.pool { frames = write_held s.pool.frames r.1.held pkt } }
  do_alloc s pkt (idx ∷ held) rejected = s
  do_alloc s pkt [] (idx ∷ rejected) = s

  -- `rx_queues[queue_idx].push(idx)`.
  unfoldable pub push_rx : System A → ℕ → Option A.Q → System A
  unfolding give_to
  push_rx s j none = s
  push_rx s j (some q) =
      let (q', hands) = give_to A q s.steering.held s.steering.rejected in
      record s { rx_queues = set s.rx_queues j q'; steering = hands }

  unfoldable pub assigned : System A → Checked ℕ → System A
  unfolding push_rx
  assigned s panic = s
  assigned s (value j) = push_rx s j (get_elem? s.rx_queues j)

  unfoldable pub push_frame : Hasher → System A → Option PacketBuf → System A
  unfolding assigned queue_of
  push_frame hasher s none = s
  push_frame hasher s (some frame) = assigned s (queue_of hasher (length s.rx_queues) frame)

  -- `rx_q.pop()`, up to `BATCH_DRAIN_SIZE` times in a row.
  unfoldable pub pop_rx : System A → ℕ → Option Rewriter → Option A.Q → System A
  unfolding take_from rewriter_with
  pop_rx s j (some r) (some q) =
      if ltb (length r.hands.held) batch_drain_size
      then (let (q', hands) = take_from A q r.hands in
          record (rewriter_with s j r.worker hands) { rx_queues = set s.rx_queues j q' })
      else s
  pop_rx s j (some r) none = s
  pop_rx s j none q = s

  -- After `process_frame`: the TX queue, or the frame is to be freed.
  unfoldable pub after_frame : System A → ℕ → Rewriter → Checked Verdict → Option A.Q → System A
  unfolding give_to rewriter_with reject write_front
  after_frame s j r panic q = s
  after_frame s j r (value (worker, frame, true)) none = s
  after_frame s j r (value (worker, frame, true)) (some q) =
      let (q', hands) = give_to A q r.hands.held r.hands.rejected in
      record (rewriter_with s j worker hands) {
        tx_queues = set s.tx_queues j q';
        pool = record s.pool { frames = write_front s.pool.frames r.hands.held frame };
      }
  after_frame s j r (value (worker, frame, false)) q =
      record (rewriter_with s j worker (reject r.hands.held r.hands.rejected)) {
        pool = record s.pool { frames = write_front s.pool.frames r.hands.held frame };
      }

  unfoldable pub do_frame :
      Hasher → Ipv4Addr → System A → ℕ → Shared → ℕ → Rewriter → Option PacketBuf → System A
  unfolding after_frame process_frame
  do_frame hasher src_ipv4 s j shared now r none = s
  do_frame hasher src_ipv4 s j shared now r (some frame) =
      after_frame s j r
        (process_frame hasher shared.health shared.vip_matcher shared.lookup_tables r.worker frame
          src_ipv4 now)
        (get_elem? s.tx_queues j)

  unfoldable pub with_rewriter : System A → Option Rewriter → (Rewriter → System A) → System A
  with_rewriter s none f = s
  with_rewriter s (some r) f = f r

  unfoldable pub do_rewriter_free : System A → ℕ → Rewriter → System A
  unfolding give_back rewriter_with
  do_rewriter_free s j r =
      let (free_list, hands) = give_back A s.pool.free_list r.hands.held r.hands.rejected in
      record (rewriter_with s j r.worker hands) { pool = record s.pool { free_list = free_list } }

  unfoldable pub pop_tx : ℕ → System A → ℕ → Option A.Q → System A
  unfolding take_from
  pop_tx batch_size s j none = s
  pop_tx batch_size s j (some q) =
      if ltb (length s.muxer.held) batch_size
      then (let (q', hands) = take_from A q s.muxer in
          record s { tx_queues = set s.tx_queues j q'; muxer = hands })
      else s

  -- `send_batch`, whatever it returns, and then all that was held is to be freed.
  unfoldable pub sent_batch : System A → Checked (List PacketBuf) → System A
  sent_batch s panic = s
  sent_batch s (value batch) = record s {
    sent = s.sent ++ batch;
    muxer = record { held = []; rejected = s.muxer.rejected ++ s.muxer.held };
  }

  unfoldable pub do_send : System A → System A
  unfolding copied sent_batch
  do_send s = sent_batch s (copied s.pool.frames s.muxer.held)

module _ (A : ArrayQueue) (hasher : Hasher) (src_ipv4 : Ipv4Addr) (batch_size : ℕ) where
  unfoldable pub step : Action → System A → System A
  unfolding do_alloc push_frame pop_rx do_frame do_rewriter_free pop_tx do_send give_back
      steering_with muxer_with front_frame with_rewriter
  step (steering_alloc pkt) s = do_alloc A s pkt s.steering.held s.steering.rejected
  step steering_push s = push_frame A hasher s (front_frame s.pool.frames s.steering.held)
  step steering_free s =
      steering_with A s (give_back A s.pool.free_list s.steering.held s.steering.rejected)
  step (rewriter_pop j) s = pop_rx A s j (get_elem? s.rewriters j) (get_elem? s.rx_queues j)
  step (rewriter_free j) s = with_rewriter A s (get_elem? s.rewriters j) (do_rewriter_free A s j)
  step (rewriter_frame j shared now) s =
      with_rewriter A s (get_elem? s.rewriters j)
        (λ r. do_frame A hasher src_ipv4 s j shared now r (front_frame s.pool.frames r.hands.held))
  step (muxer_pop j) s = pop_tx A batch_size s j (get_elem? s.tx_queues j)
  step muxer_send s = do_send A s
  step muxer_free s = muxer_with A s (give_back A s.pool.free_list s.muxer.held s.muxer.rejected)

  unfoldable pub run : List Action → System A → System A
  run [] s = s
  run (a ∷ actions) s = run actions (step a s)

abbrev pub queue_capacity : ℕ
queue_capacity = 4096

abbrev pub pool_size_for : ℕ → ℕ → ℕ
pool_size_for batch_size num_rewriters = queue_capacity * num_rewriters * 2 + batch_size * 2

-- `start`, once its threads run, with a worker for each rewriter.
unfoldable pub start : (A : ArrayQueue) → ℕ → List RewriterThread → System A
unfolding new_pool
start A batch_size workers = record {
  pool = new_pool A (pool_size_for batch_size (length workers));
  rx_queues = map (λ _. A.new queue_capacity) workers;
  tx_queues = map (λ _. A.new queue_capacity) workers;
  steering = empty_hands;
  rewriters = map (λ w. record { worker = w; hands = empty_hands }) workers;
  muxer = empty_hands;
  sent = [];
}
