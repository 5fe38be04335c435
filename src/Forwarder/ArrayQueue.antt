-- ===== src/Forwarder/ArrayQueue.antt =====
-- The bounded queue of the crate `crossbeam` through which frame indices pass between threads: what
-- the code uses of it, and what its documentation says of that. Each call is one atomic step.
use lb.Prelude.{List, Option, [], length, none, some, ℕ, ◌++◌, ◌<◌, ◌∷◌, ◌≡◌, ◌≤◌}

pub record ArrayQueue : Type 1 where
  pub Q : Type 0
  pub new : ℕ → Q
  -- None when the queue is full.
  pub push : Q → ℕ → Option Q
  pub pop : Q → Option (ℕ × Q)
  pub contents : Q → List ℕ
  pub capacity : Q → ℕ
  pub contents-new : (n : ℕ) → contents (new n) ≡ []
  pub capacity-new : (n : ℕ) → capacity (new n) ≡ n
  pub push-room :
      (q : Q) (x : ℕ)
      → length (contents q) < capacity q
      → (q' : Q) × (push q x ≡ some q')
        × (contents q' ≡ contents q ++ (x ∷ []))
        × (capacity q' ≡ capacity q)
  pub push-full : (q : Q) (x : ℕ) → capacity q ≤ length (contents q) → push q x ≡ none
  pub pop-empty : (q : Q) → contents q ≡ [] → pop q ≡ none
  pub pop-front :
      (q : Q) (x : ℕ) (xs : List ℕ)
      → contents q ≡ x ∷ xs
      → (q' : Q) × (pop q ≡ some (x, q')) × (contents q' ≡ xs) × (capacity q' ≡ capacity q)
