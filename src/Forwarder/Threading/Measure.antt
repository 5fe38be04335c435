-- ===== src/Forwarder/Threading/Measure.antt =====
-- Measures of the indices in a system that add up over lists, such as how many there are and how
-- often one is there: what each call of a queue and each action does to them.
use lb.Prelude.{
  List, List-cases, [], ap, arith, dec_lt, get_elem?, inl, inr, length, refl, set, some, suc, sym,
  zero, ℕ, ◌++◌, ◌+◌, ◌<◌, ◌∷◌, ◌≡◌, ◌≢◌, ◌≤◌,
}
use lb.Forwarder.ArrayQueue.{ArrayQueue}
use lb.Forwarder.PacketPool.{push_or_lose}
use lb.Forwarder.Threading.Hands.{Hands, take_from, give_to, give_back, reject, popped, pushed}
use lb.Forwarder.Threading.System.{System, Rewriter}
use mathlib.Core.List.{nil≢cons}

-- The sum over a list.
unfoldable pub total {ℓ} : {X : Type ℓ} → (X → ℕ) → List X → ℕ
total f [] = 0
total f (x ∷ xs) = f x + total f xs

pub total-set {ℓ} :
    {X : Type ℓ} (f : X → ℕ) (xs : List X) (i : ℕ) (x x' : X)
    → get_elem? xs i ≡ some x
    → total f (set xs i x') + f x ≡ total f xs + f x'
unfolding total
total-set f [] i x x' e = absurd (cc e)
total-set f (y ∷ xs) zero x x' e = let q : y ≡ x = cc e in rw q (omega arith)
total-set f (y ∷ xs) (suc i) x x' e = omega (arith, total-set f xs i x x' e)

pub total-get {ℓ} :
    {X : Type ℓ} (f : X → ℕ) (xs : List X) (i : ℕ) (x : X)
    → get_elem? xs i ≡ some x
    → f x ≤ total f xs
unfolding total
total-get f [] i x e = absurd (cc e)
total-get f (y ∷ xs) zero x e = let q : y ≡ x = cc e in rw (sym q) (omega arith)
total-get f (y ∷ xs) (suc i) x e = omega (arith, total-get f xs i x e)

pub record Measure : Type 0 where
  pub of : List ℕ → ℕ
  pub none_of : of [] ≡ 0
  pub adds : (xs ys : List ℕ) → of (xs ++ ys) ≡ of xs + of ys

module _ (A : ArrayQueue) (m : Measure) where
  unfoldable pub in_hands : Hands → ℕ
  in_hands h = m.of h.held + m.of h.rejected

  unfoldable pub in_queue : A.Q → ℕ
  in_queue q = m.of (A.contents q)

  unfoldable pub in_rewriter : Rewriter → ℕ
  unfolding in_hands
  in_rewriter r = in_hands r.hands

  unfoldable pub measure : System A → ℕ
  unfolding in_hands in_queue in_rewriter total
  measure s =
      in_queue s.pool.free_list
      + total in_queue s.rx_queues
      + total in_queue s.tx_queues
      + in_hands s.steering
      + total in_rewriter s.rewriters
      + in_hands s.muxer

  pub take_from-measure :
      (q : A.Q) (h : Hands)
      → in_queue (take_from A q h).0 + in_hands (take_from A q h).1 ≡ in_queue q + in_hands h
  unfolding take_from popped in_queue in_hands
  take_from-measure q h = elim (List-cases (A.contents q)) [
    | inl e ↦ rw (A.pop-empty q e) refl
    | inr (x, xs, e) ↦
        let (q', p, c, _) = A.pop-front q x xs e in
        rw (p, in_queue, c) (omega (arith, ap m.of e, m.adds h.held (x ∷ []), m.adds (x ∷ []) xs))
  ]

  pub give_to-measure :
      (q : A.Q) (held rejected : List ℕ)
      → in_queue (give_to A q held rejected).0 + in_hands (give_to A q held rejected).1
        ≡ in_queue q + (m.of held + m.of rejected)
  unfolding give_to pushed in_queue in_hands
  give_to-measure q [] rejected = refl
  give_to-measure q (idx ∷ held) rejected = elim (dec_lt (length (A.contents q)) (A.capacity q)) [
    | yes h ↦
        let (q', p, c, _) = A.push-room q idx h in
        rw (p, in_queue, c)
          (omega (arith, m.adds (A.contents q) (idx ∷ []), m.adds (idx ∷ []) held))
    | no h ↦
        rw (A.push-full q idx (omega arith))
          (omega (arith, m.adds (idx ∷ []) held, m.adds (idx ∷ []) rejected))
  ]

  pub give_back-measure :
      (q : A.Q) (held rejected : List ℕ)
      → (rejected ≢ [] → length (A.contents q) < A.capacity q)
      → in_queue (give_back A q held rejected).0 + in_hands (give_back A q held rejected).1
        ≡ in_queue q + (m.of held + m.of rejected)
  unfolding give_back push_or_lose in_queue in_hands
  give_back-measure q held [] h = refl
  give_back-measure q held (idx ∷ rejected) h =
      let (q', p, c, _) = A.push-room q idx (h (λ e. nil≢cons (sym e))) in
      rw (push_or_lose, p, in_queue, c)
        (omega (arith, m.adds (A.contents q) (idx ∷ []), m.adds (idx ∷ []) rejected))

  pub reject-measure :
      (held rejected : List ℕ) → in_hands (reject held rejected) ≡ m.of held + m.of rejected
  unfolding reject in_hands
  reject-measure [] rejected = refl
  reject-measure (idx ∷ held) rejected =
      omega (arith, m.adds (idx ∷ []) held, m.adds (idx ∷ []) rejected)
