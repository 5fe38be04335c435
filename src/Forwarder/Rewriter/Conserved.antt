-- ===== src/Forwarder/Rewriter/Conserved.antt =====
-- `process_batch` does not panic, and counts every packet once.
use mathlib.Core.Path.{subst}
use lb.Prelude.{
  sym, ap, ◌∙◌, get_elem?-set_ne, get_elem?, refl, ℕ, List, Option, lookup, none, some, ◌+◌, ◌≡◌,
  arith, length, suc, zero, ◌≤◌, length-set, set, [], ◌<◌, ◌∷◌,
}
use lb.Forwarder.Rewriter.Passes.{Passed, process_one-Passed}
use lb.Prelude.Checked.{index_inside, Checked, value, panic, ◌>>=◌, index}
use lb.Types.Net.{IpAddr, Bytes-discrete}
use lb.Types.Backend.{HealthStatus, BackendPoolId}
use lb.Hashing.Permutation.{Hasher}
use lb.Hashing.Table.{LookupTable}
use lb.Hashing.Build.{IsFull}
use lb.Forwarder.PacketBuf.{PacketBuf, Fits}
use lb.Forwarder.VipMatcher.{VipMatcher}
use lb.Forwarder.Rewriter.Metrics.{ForwarderMetrics}
use lb.Forwarder.Rewriter.Choice.{Kept}
use lb.Forwarder.Rewriter.Steps.{
  RewriterThread, ProcessResult, forwarded, icmp, oversized_rate_limited, dropped, process_one,
}
use lb.Forwarder.Rewriter.Batch.{
  batch_loop, count_result, outgoing, count_received, counted, process_batch, set_gauges,
}

-- The packets that are counted as forwarded, answered or dropped.
abbrev pub settled : ForwarderMetrics → ℕ
settled m = m.packets_forwarded + m.icmp_frag_needed_sent_total + m.packets_dropped

count_result-settled :
    (result : ProcessResult) (m : ForwarderMetrics)
    → (settled (count_result result m) ≡ settled m + 1)
      × ((count_result result m).packets_received ≡ m.packets_received)
unfolding count_result
count_result-settled (forwarded pkt) m = (omega arith, refl)
count_result-settled (icmp pkt) m = (omega arith, refl)
count_result-settled oversized_rate_limited m = (omega arith, refl)
count_result-settled dropped m = (omega arith, refl)

-- No panic, and `n` packets more that are received and settled.
abbrev pub Settled {ℓ} : {A : Type ℓ} → ForwarderMetrics → ℕ → Checked (RewriterThread × A) → Type 0
Settled m n panic = ⊥
Settled m n (value (r, a)) =
    (r.metrics.packets_received ≡ m.packets_received + n) × (settled r.metrics ≡ settled m + n)

Settled-suc {ℓ} :
    {A : Type ℓ} (m m' : ForwarderMetrics) (n : ℕ) (c : Checked (RewriterThread × A))
    → m'.packets_received ≡ m.packets_received + 1
    → settled m' ≡ settled m + 1
    → Settled m' n c
    → Settled m (suc n) c
Settled-suc m m' n panic a b h = h
Settled-suc m m' n (value (r, x)) a b (c, d) = (omega (arith, a, c), omega (arith, b, d))

index-get {ℓ} :
    {A : Type ℓ} (xs : List A) (i : ℕ) (x : A) → index xs i ≡ value x → get_elem? xs i ≡ some x
unfolding index
index-get {A = A} xs i x = found (get_elem? xs i)
  where
    found : (o : Option A) → elim o [ none ↦ panic | some y ↦ value y ] ≡ value x → o ≡ some x
    found none e = absurd (cc e)
    found (some y) e = let same : y ≡ x = cc e in ap some same

-- The packets from that index on have their lengths within their buffers.
abbrev AllFit : ℕ → List PacketBuf → Type 0
AllFit i packets = (k : ℕ) (p : PacketBuf) → i ≤ k → get_elem? packets k ≡ some p → Fits p

-- Every packet's length is within its buffer.
unfoldable pub EachFits : List PacketBuf → Type 0
EachFits [] = Unit
EachFits (p ∷ ps) = Fits p × EachFits ps

EachFits-get :
    (packets : List PacketBuf) (k : ℕ) (p : PacketBuf)
    → EachFits packets
    → get_elem? packets k ≡ some p
    → Fits p
unfolding EachFits
EachFits-get [] k p fits e = absurd (cc e)
EachFits-get (q ∷ ps) zero p (f, fits) e = let same : q ≡ p = cc e in subst Fits same f
EachFits-get (q ∷ ps) (suc k) p (f, fits) e = EachFits-get ps k p fits e

AllFit-suc : (i : ℕ) (packets : List PacketBuf) → AllFit i packets → AllFit (i + 1) packets
AllFit-suc i packets fit k p h e = fit k p (omega arith) e

AllFit-set :
    (i j : ℕ) (packets : List PacketBuf) (pkt : PacketBuf)
    → j ≤ i
    → AllFit i packets
    → AllFit (i + 1) (set packets j pkt)
AllFit-set i j packets pkt le fit k p h e =
    fit k p (omega arith)
      (sym (get_elem?-set_ne packets pkt (let less : j < k = omega arith in λ s. omega arith)) ∙ e)

module _ (one : RewriterThread → PacketBuf → Checked (RewriterThread × ProcessResult))
    (passes : (r : RewriterThread) (p : PacketBuf) → Fits p → Passed r.metrics (one r p)) where
  -- The rest of a turn, for what goes out.
  abbrev turn :
      ℕ
      → List PacketBuf
      → ℕ
      → ℕ
      → RewriterThread × ProcessResult
      → Option PacketBuf
      → Checked (RewriterThread × (List PacketBuf × ℕ))
  turn n packets i j x none = batch_loop one n (counted x.0 x.1) packets (i + 1) j
  turn n packets i j x (some pkt) =
      batch_loop one n (counted x.0 x.1) (set packets j pkt) (i + 1) (j + 1)

  batch_loop-Settled :
      (n : ℕ) (r : RewriterThread) (packets : List PacketBuf) (read_idx write_idx : ℕ)
      → read_idx + n ≤ length packets
      → write_idx ≤ read_idx
      → AllFit read_idx packets
      → Settled r.metrics n (batch_loop one n r packets read_idx write_idx)
  unfolding batch_loop count_received
  batch_loop-Settled zero r packets i j h le fit = (omega arith, omega arith)
  batch_loop-Settled (suc n) r packets i j h le fit =
      let (p, e) = index_inside packets i (omega arith) in
      rw e (
        done
          (λ q ps k same less rest.
            batch_loop-Settled n q ps (i + 1) k (omega (arith, h, same)) less rest)
          (one (count_received r) p)
          (passes (count_received r) p (fit i p (omega arith) (index-get packets i p e))))
    where
      Rest : Type 0
      Rest =
          (q : RewriterThread) (ps : List PacketBuf) (k : ℕ)
          → length ps ≡ length packets
          → k ≤ i + 1
          → AllFit (i + 1) ps
          → Settled q.metrics n (batch_loop one n q ps (i + 1) k)

      out :
          Rest
          → (q : RewriterThread) (result : ProcessResult) (o : Option PacketBuf)
          → Kept (count_received r).metrics q.metrics
          → Settled r.metrics (suc n) (turn n packets i j (q, result) o)
      out rest q result none k =
          let (a, b) = count_result-settled result q.metrics in
          Settled-suc r.metrics (counted q result).metrics n
            (batch_loop one n (counted q result) packets (i + 1) j) (omega (arith, b, k.received))
            (omega (arith, a, k.forwarded, k.answered, k.dropped))
            (rest (counted q result) packets j refl (omega (arith, le)) (AllFit-suc i packets fit))
      out rest q result (some pkt) k =
          let (a, b) = count_result-settled result q.metrics in
          Settled-suc r.metrics (counted q result).metrics n
            (batch_loop one n (counted q result) (set packets j pkt) (i + 1) (j + 1))
            (omega (arith, b, k.received)) (omega (arith, a, k.forwarded, k.answered, k.dropped))
            (rest (counted q result) (set packets j pkt) (j + 1) (length-set packets j pkt)
              (omega (arith, le)) (AllFit-set i j packets pkt le fit))

      done :
          Rest
          → (c : Checked (RewriterThread × ProcessResult)) → Passed (count_received r).metrics c
          → Settled r.metrics (suc n) (c >>= (λ x. turn n packets i j x (outgoing x.1)))
      done rest panic k = k
      done rest (value (q, result)) k = out rest q result (outgoing result) k

-- For every batch of packets whose lengths are within their buffers, whatever their bytes, and for
-- tables that are all full:
-- `process_batch` does not panic, counts each packet as received, and counts each once as forwarded,
-- as answered by ICMP, or as dropped.
pub process_batch-Settled :
    (hasher : Hasher) (health : IpAddr → Option HealthStatus) (vip_matcher : VipMatcher)
    (tables : List (BackendPoolId × LookupTable)) (r : RewriterThread) (packets : List PacketBuf)
    (now : ℕ)
    → ((id : BackendPoolId) (t : LookupTable) → lookup Bytes-discrete id tables ≡ some t → IsFull t)
    → EachFits packets
    → Settled r.metrics
        (length packets)
        (process_batch hasher health vip_matcher tables r packets now)
unfolding process_batch set_gauges
process_batch-Settled hasher health vip_matcher tables r packets now full fit =
    gauged
      (batch_loop (λ q p. process_one hasher health vip_matcher tables q p now) (length packets) r
        packets 0 0)
      (batch_loop-Settled (λ q p. process_one hasher health vip_matcher tables q p now)
        (process_one-Passed hasher health now vip_matcher tables full) (length packets) r packets 0
        0 (omega arith) (omega arith) (λ k p _ e. EachFits-get packets k p fit e))
  where
    gauged :
        (c : Checked (RewriterThread × (List PacketBuf × ℕ)))
        → Settled r.metrics (length packets) c
        → Settled r.metrics (length packets) (c >>= (λ x. value (set_gauges x.0, x.1)))
    gauged panic h = h
    gauged (value (q, x)) h = h
