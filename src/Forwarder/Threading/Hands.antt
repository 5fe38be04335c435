-- ===== src/Forwarder/Threading/Hands.antt =====
-- What one thread does with frame indices: it takes one out of a queue, puts one that it holds into
-- a queue, and gives one back to the free list. Between a refused push and the give-back, other
-- threads may run, so an index that is to be given back is kept apart.
use lb.Prelude.{List, Option, [], none, some, ℕ, ◌++◌, ◌∷◌}
use lb.Forwarder.ArrayQueue.{ArrayQueue}
use lb.Forwarder.PacketPool.{push_or_lose}

pub record Hands : Type 0 where
  pub held : List ℕ
  pub rejected : List ℕ

abbrev pub empty_hands : Hands
empty_hands = record { held = []; rejected = [] }

module _ (A : ArrayQueue) where
  -- After `queue.pop()`.
  unfoldable pub popped : A.Q → Hands → Option (ℕ × A.Q) → A.Q × Hands
  popped q h none = (q, h)
  popped q h (some (idx, q')) = (q', record h { held = h.held ++ (idx ∷ []) })

  unfoldable pub take_from : A.Q → Hands → A.Q × Hands
  unfolding popped
  take_from q h = popped q h (A.pop q)

  -- After `queue.push(idx)`, where `held` is what else the thread holds.
  unfoldable pub pushed : A.Q → ℕ → List ℕ → List ℕ → Option A.Q → A.Q × Hands
  pushed q idx held rejected (some q') = (q', record { held = held; rejected = rejected })
  pushed q idx held rejected none = (q, record { held = held; rejected = idx ∷ rejected })

  unfoldable pub give_to : A.Q → List ℕ → List ℕ → A.Q × Hands
  unfolding pushed
  give_to q [] rejected = (q, record { held = []; rejected = rejected })
  give_to q (idx ∷ held) rejected = pushed q idx held rejected (A.push q idx)

  -- `pool.free(idx)`.
  unfoldable pub give_back : A.Q → List ℕ → List ℕ → A.Q × Hands
  unfolding push_or_lose
  give_back q held [] = (q, record { held = held; rejected = [] })
  give_back q held (idx ∷ rejected) =
      (push_or_lose A q idx, record { held = held; rejected = rejected })

-- A frame that is dropped.
unfoldable pub reject : List ℕ → List ℕ → Hands
reject [] rejected = record { held = []; rejected = rejected }
reject (idx ∷ held) rejected = record { held = held; rejected = idx ∷ rejected }
