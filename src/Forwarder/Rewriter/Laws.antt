-- ===== src/Forwarder/Rewriter/Laws.antt =====
-- The loop of `process_batch` against the packets one after the other.
use lb.Forwarder.Rewriter.Batch.{batch_loop, emit, count_received, outgoing, counted}
use lb.Forwarder.PacketBuf.{PacketBuf}
use lb.Forwarder.Rewriter.Steps.{RewriterThread, ProcessResult}
use lb.Prelude.{
  List, [], ap, length, refl, set, take, ℕ, ◌++◌, ◌+◌, ◌∷◌, ◌≡◌, Option, Option-cases, arith, inl,
  inr, length-append, none, some, sym, ◌∙◌, suc,
}
use mathlib.Core.List.{append-nil, append_assoc}
use lb.Prelude.Checked.{Checked, value, panic, ◌>>=◌, index, Checked-cases}

index-append {ℓ} :
    {A : Type ℓ} (xs ys : List A) (x : A) → index (xs ++ (x ∷ ys)) (length xs) ≡ value x
unfolding index
index-append [] ys x = refl
index-append (y ∷ xs) ys x = index-append xs ys x

set-append {ℓ} :
    {A : Type ℓ} (xs ys : List A) (x q : A) → set (xs ++ (x ∷ ys)) (length xs) q ≡ xs ++ (q ∷ ys)
set-append [] ys x q = refl
set-append (y ∷ xs) ys x q = ap (◌∷◌ y) (set-append xs ys x q)

take-append {ℓ} : {A : Type ℓ} (xs ys : List A) → take (length xs) (xs ++ ys) ≡ xs
take-append [] ys = refl
take-append (x ∷ xs) ys = ap (◌∷◌ x) (take-append xs ys)

-- The packets that the caller finds at the front of the slice.
unfoldable pub front :
    Checked (RewriterThread × (List PacketBuf × ℕ)) → Checked (RewriterThread × List PacketBuf)
front (value (r, (packets, n))) = value (r, take n packets)
front panic = panic

unfoldable pub after_front :
    List PacketBuf
    → Checked (RewriterThread × List PacketBuf)
    → Checked (RewriterThread × List PacketBuf)
after_front acc (value (r, out)) = value (r, acc ++ out)
after_front acc panic = panic

-- A list with an element at its end has one at its start.
uncons {ℓ} :
    {A : Type ℓ} (xs : List A) (x : A) → (y : A) × (ys : List A) × (xs ++ (x ∷ []) ≡ y ∷ ys)
uncons [] x = (x, [], refl)
uncons (z ∷ xs) x = (z, xs ++ (x ∷ []), refl)

abbrev emitted : List PacketBuf → Option PacketBuf → List PacketBuf
emitted out o = elim o [ some pkt ↦ pkt ∷ out | none ↦ out ]

after_front-cons :
    (acc : List PacketBuf) (q : PacketBuf) (m : Checked (RewriterThread × List PacketBuf))
    → after_front (acc ++ (q ∷ [])) m
      ≡ after_front acc (m >>= (λ (last, out). value (last, q ∷ out)))
unfolding after_front
after_front-cons acc q panic = refl
after_front-cons acc q (value (last, out)) =
    ap (λ (t : List PacketBuf). value (last, t)) (append_assoc acc (q ∷ []) out)

after_front-same :
    (acc : List PacketBuf) (m : Checked (RewriterThread × List PacketBuf))
    → after_front acc m ≡ after_front acc (m >>= (λ (last, out). value (last, out)))
unfolding after_front
after_front-same acc panic = refl
after_front-same acc (value (last, out)) = refl

-- The slice after a packet went out, as its parts.
slice-out :
    (acc junk rest : List PacketBuf) (p q : PacketBuf)
    → (junk' : List PacketBuf) × (set (acc ++ (junk ++ (p ∷ rest))) (length acc) q
        ≡ (acc ++ (q ∷ [])) ++ (junk' ++ rest))
      × (length junk' ≡ length junk)
slice-out acc junk rest p q =
    let (j, junk', e) = uncons junk p in
    let whole : junk ++ (p ∷ rest) ≡ j ∷ (junk' ++ rest) =
      sym (append_assoc junk (p ∷ []) rest) ∙ ap (λ (t : List PacketBuf). t ++ rest) e in
    let size = ap (λ (t : List PacketBuf). length t) e in
    (
      junk',
      rw whole
          (set-append acc (junk' ++ rest) j q ∙ sym (append_assoc acc (q ∷ []) (junk' ++ rest))),
      omega (arith, size, length-append junk (p ∷ [])),
    )

slice-junk :
    (acc junk rest : List PacketBuf) (p : PacketBuf)
    → acc ++ (junk ++ (p ∷ rest)) ≡ acc ++ ((junk ++ (p ∷ [])) ++ rest)
slice-junk acc junk rest p =
    ap (λ (t : List PacketBuf). acc ++ t) (sym (append_assoc junk (p ∷ []) rest))

slice-index :
    (acc junk rest : List PacketBuf) (p : PacketBuf)
    → index (acc ++ (junk ++ (p ∷ rest))) (length acc + length junk) ≡ value p
slice-index acc junk rest p =
    rw (sym (append_assoc acc junk (p ∷ rest)), sym (length-append acc junk))
      (index-append (acc ++ junk) rest p)

module _ (one : RewriterThread → PacketBuf → Checked (RewriterThread × ProcessResult)) where
  -- A round of the loop, by what becomes of its packet.
  batch_loop-round :
      (n : ℕ) (r moved : RewriterThread) (packets : List PacketBuf) (i w : ℕ) (p : PacketBuf)
      (result : ProcessResult)
      → index packets i ≡ value p
      → one (count_received r) p ≡ value (moved, result)
      → batch_loop one (suc n) r packets i w ≡ elim (outgoing result) [
        | some q ↦ batch_loop one n (counted moved result) (set packets w q) (i + 1) (w + 1)
        | none ↦ batch_loop one n (counted moved result) packets (i + 1) w
      ]
  unfolding batch_loop
  batch_loop-round n r moved packets i w p result read run = rw read (rw run refl)

  batch_loop-panic :
      (n : ℕ) (r : RewriterThread) (packets : List PacketBuf) (i w : ℕ) (p : PacketBuf)
      → index packets i ≡ value p
      → one (count_received r) p ≡ panic
      → batch_loop one (suc n) r packets i w ≡ panic
  unfolding batch_loop
  batch_loop-panic n r packets i w p read run = rw read (rw run refl)

  emit-round :
      (r moved : RewriterThread) (p : PacketBuf) (rest : List PacketBuf) (result : ProcessResult)
      → one (count_received r) p ≡ value (moved, result)
      → emit one r (p ∷ rest)
        ≡ emit one (counted moved result) rest
          >>= (λ (last, out). value (last, emitted out (outgoing result)))
  unfolding emit
  emit-round r moved p rest result run = rw run refl

  emit-panic :
      (r : RewriterThread) (p : PacketBuf) (rest : List PacketBuf)
      → one (count_received r) p ≡ panic
      → emit one r (p ∷ rest) ≡ panic
  unfolding emit
  emit-panic r p rest run = rw run refl

  batch_loop-done :
      (r : RewriterThread) (acc junk : List PacketBuf)
      → front (batch_loop one 0 r (acc ++ (junk ++ [])) (length acc + length junk) (length acc))
        ≡ after_front acc (emit one r [])
  unfolding front after_front batch_loop emit
  batch_loop-done r acc junk =
      ap (λ (t : List PacketBuf). value (r, t))
        (take-append acc (junk ++ []) ∙ sym (append-nil acc))

  -- The packets `acc` go out, those of `junk` were read and may be overwritten, and those of `rest`
  -- are still to be read.
  batch_loop-emit :
      (rest : List PacketBuf) (r : RewriterThread) (acc junk : List PacketBuf)
      → front (
          batch_loop one
            (length rest)
            r
            (acc ++ (junk ++ rest))
            (length acc + length junk)
            (length acc))
        ≡ after_front acc (emit one r rest)
  unfolding after_front front
  batch_loop-emit [] r acc junk = batch_loop-done r acc junk
  batch_loop-emit (p ∷ rest) r acc junk =
      let packets = acc ++ (junk ++ (p ∷ rest)) in
      let i = length acc + length junk in
      let n = length rest in
      let read = slice-index acc junk rest p in
      elim (Checked-cases (one (count_received r) p)) [
        | inl e ↦
            rw (batch_loop-panic n r packets i (length acc) p read e, emit-panic r p rest e) refl
        | inr ((moved, result), e) ↦
            rw
              (
                batch_loop-round n r moved packets i (length acc) p result read e,
                emit-round r moved p rest result e,
              )
              (elim (Option-cases (outgoing result)) [
                | inl stay ↦
                    let ih = batch_loop-emit rest (counted moved result) acc (junk ++ (p ∷ [])) in
                    let at : length acc + length (junk ++ (p ∷ [])) ≡ i + 1 =
                      omega (arith, length-append junk (p ∷ [])) in
                    rw stay (
                      rw (slice-junk acc junk rest p, sym at)
                        (ih ∙ after_front-same acc (emit one (counted moved result) rest)))
                | inr (q, out) ↦
                    let (junk', slice, size) = slice-out acc junk rest p q in
                    let ih = batch_loop-emit rest (counted moved result) (acc ++ (q ∷ [])) junk' in
                    let w : length (acc ++ (q ∷ [])) ≡ length acc + 1 =
                      omega (arith, length-append acc (q ∷ [])) in
                    let at : length (acc ++ (q ∷ [])) + length junk' ≡ i + 1 =
                      omega (arith, w, size) in
                    rw out (
                      rw (slice, sym at, sym w)
                        (ih ∙ after_front-cons acc q (emit one (counted moved result) rest)))
              ])
      ]

-- The batch's loop returns a state and a slice in which the packets that go out stand at the front,
-- in their order, each the output of the pipeline for the packet it came from: overwriting the
-- slice in place never loses a packet that is still to be read. It panics exactly if processing
-- the packets one after the other does.
pub batch_loop-front :
    (one : RewriterThread → PacketBuf → Checked (RewriterThread × ProcessResult))
    (r : RewriterThread) (packets : List PacketBuf)
    → front (batch_loop one (length packets) r packets 0 0) ≡ emit one r packets
unfolding after_front
batch_loop-front one r packets =
    batch_loop-emit one packets r [] [] ∙ after_nil (emit one r packets)
  where
    after_nil : (m : Checked (RewriterThread × List PacketBuf)) → after_front [] m ≡ m
    after_nil panic = refl
    after_nil (value (last, out)) = refl
