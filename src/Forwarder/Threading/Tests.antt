-- ===== src/Forwarder/Threading/Tests.antt =====
-- A queue of a list, and a schedule of one rewriter with it.
use lb.Forwarder.Threading.Fit.{AllWhole, run-AllWhole}
use lb.Forwarder.Threading.Frames.{to_free, run-occurrences, run-to_free, reached}
use lb.Forwarder.Rewriter.Sample.{thread, seeded, matcher, web, small_table, one_table}
use lb.Types.Net.{unspecified}
use lb.Forwarder.Threading.Ownership.{occurrences}
use lb.Forwarder.Threading.System.{
  Action, steering_alloc, steering_push, rewriter_pop, muxer_send, pool_size_for,
}
use lb.Forwarder.Threading.Worker.{process_frame}
use lb.Forwarder.Threading.Worker.Counters.{Counted, process_frame-Counted}
use lb.Forwarder.PacketBuf.{PacketBuf}
use lb.Forwarder.Threading.Measure.{measure}
use lb.Forwarder.Threading.Affinity.{
  CpuAffinity, Resolves, resolve_cpu_affinity, resolve_cpu_affinity-Resolves,
}
use lb.Prelude.{
  List, Option, [], if◌then◌else◌, length, ltb, lt→ltb, none, not-ltb, refl, some, ℕ, ◌++◌, ◌<◌,
  ◌∷◌, ◌≡◌, ◌≤◌, ◌+◌, arith,
}
use lb.Forwarder.ArrayQueue.{ArrayQueue}

record ListQueue : Type 0 where
  items : List ℕ
  size : ℕ

unfoldable list_push : ListQueue → ℕ → Option ListQueue
list_push q x =
    if ltb (length q.items) q.size then some (record q { items = q.items ++ (x ∷ []) }) else none

unfoldable pop_items : List ℕ → ℕ → Option (ℕ × ListQueue)
pop_items [] n = none
pop_items (x ∷ xs) n = some (x, record { items = xs; size = n })

list_push-room :
    (q : ListQueue) (x : ℕ)
    → length q.items < q.size
    → (q' : ListQueue) × (list_push q x ≡ some q')
      × (q'.items ≡ q.items ++ (x ∷ []))
      × (q'.size ≡ q.size)
unfolding list_push
list_push-room q x h = (
  record q { items = q.items ++ (x ∷ []) },
  rw (lt→ltb (length q.items) q.size h) refl,
  refl,
  refl,
)

list_push-full : (q : ListQueue) (x : ℕ) → q.size ≤ length q.items → list_push q x ≡ none
unfolding list_push
list_push-full q x h = rw (not-ltb (length q.items) q.size h) refl

pop_items-front :
    (q : ListQueue) (x : ℕ) (xs : List ℕ)
    → q.items ≡ x ∷ xs
    → (q' : ListQueue) × (pop_items q.items q.size ≡ some (x, q'))
      × (q'.items ≡ xs)
      × (q'.size ≡ q.size)
unfolding pop_items
pop_items-front q x xs e = (record { items = xs; size = q.size }, rw e refl, refl, refl)

pop_items-empty : (q : ListQueue) → q.items ≡ [] → pop_items q.items q.size ≡ none
unfolding pop_items
pop_items-empty q e = rw e refl

unfoldable list_queue : ArrayQueue
list_queue = record {
  Q = ListQueue;
  new = λ n. record { items = []; size = n };
  push = list_push;
  pop = λ q. pop_items q.items q.size;
  contents = λ q. q.items;
  capacity = λ q. q.size;
  contents-new = λ n. refl;
  capacity-new = λ n. refl;
  push-room = list_push-room;
  push-full = list_push-full;
  pop-empty = pop_items-empty;
  pop-front = pop_items-front;
}

-- A packet that comes in, is too short to be one, and goes to the first queue, where the rewriter takes
-- it.
abbrev schedule : List Action
schedule = steering_alloc (0x45 ∷ []) ∷ steering_push ∷ rewriter_pop 0 ∷ muxer_send ∷ []

run-occurrences_example :
    measure list_queue
      (occurrences 8320)
      (reached list_queue seeded unspecified 64 (thread ∷ []) schedule)
    ≡ (if ltb 8320 (pool_size_for 64 1) then 1 else 0)
run-occurrences_example =
    run-occurrences list_queue seeded unspecified 64 (thread ∷ []) schedule 8320

run-to_free_example :
    length (
        list_queue.contents
          (reached list_queue seeded unspecified 64 (thread ∷ []) schedule).pool.free_list)
      + to_free list_queue (reached list_queue seeded unspecified 64 (thread ∷ []) schedule)
    ≤ list_queue.capacity
        (reached list_queue seeded unspecified 64 (thread ∷ []) schedule).pool.free_list
run-to_free_example = run-to_free list_queue seeded unspecified 64 (thread ∷ []) schedule

abbrev short_frame : PacketBuf
short_frame = record { bytes = 0x45 ∷ 0 ∷ 0 ∷ []; len = 2 }

process_frame-Counted_example :
    Counted
      (record thread.metrics { packets_received = 1 })
      (process_frame seeded
        (λ ip. none)
        matcher
        ((web, small_table) ∷ [])
        thread
        short_frame
        unspecified
        0)
process_frame-Counted_example =
    process_frame-Counted seeded (λ ip. none) matcher ((web, small_table) ∷ []) thread short_frame
      unspecified 0 one_table (omega arith)

-- Four cores, three rewriters on two of them, and a muxer that asks for one that is not there.
abbrev affinity : CpuAffinity
affinity = record { steering = 7 ∷ 1 ∷ []; rewriters = 2 ∷ 3 ∷ []; muxer = 9 ∷ [] }

abbrev cores : List ℕ
cores = 0 ∷ 1 ∷ 2 ∷ 3 ∷ []

resolve_cpu_affinity-Resolves_example :
    Resolves cores affinity 3 (resolve_cpu_affinity cores affinity 3)
resolve_cpu_affinity-Resolves_example = resolve_cpu_affinity-Resolves cores affinity 3

run-AllWhole_example :
    AllWhole (reached list_queue seeded unspecified 64 (thread ∷ []) schedule).pool.frames
run-AllWhole_example = run-AllWhole list_queue seeded unspecified 64 (thread ∷ []) schedule
