-- ===== src/Forwarder/Rewriter/Choice.antt =====
-- The choice of a backend, and what a flow and a fragment leave in the tables: no panic, and the
-- counters of frames as they were.
use lb.Types.Packet.Buffer.{fragment_hash}
use mathlib.Core.Path.{subst}
use lb.Config.Applier.{is_healthy}
use lb.Prelude.{Option, if◌then◌else◌, none, not, refl, some, sym, ℕ, ◌&&◌, ◌+◌, ◌∙◌, ◌≡◌}
use lb.Prelude.Checked.{Checked, value, panic, ◌>>=◌, Runs, if-holds}
use lb.Types.Net.{IpAddr}
use lb.Types.Backend.{HealthStatus, Backend}
use lb.Types.Packet.{
  FlowProto, TcpFlowState, FragmentId, fragment_id, is_fragment, rst, fin, ack, syn,
}
use lb.Types.Packet.Parsed.{readers-Runs}
use lb.Hashing.Permutation.{Hasher}
use lb.Hashing.Table.{LookupTable}
use lb.Hashing.Build.{IsFull, lookup-IsFull}
use lb.Forwarder.PacketBuf.{PacketBuf, sliced, in_use, Fits}
use lb.Forwarder.ConnTable.Defs.{InsertResult, inserted, updated, evicted_expired, dropped_full}
use lb.Forwarder.ConnTable.Defs
use lb.Forwarder.FragmentTable
use lb.Forwarder.Rewriter.Metrics.{ForwarderMetrics}
use lb.Forwarder.Rewriter.Steps.{
  RewriterThread, choose_backend, pin_backend, insert_tracked, count_insert, record_fragment,
  transitions, apply_tcp_transitions,
}
use lb.Types.Packet.Buffer.{fragment_hash}

-- The four counters of packets are as they were.
pub record Kept (m m' : ForwarderMetrics) : Type 0 where
  pub received : m'.packets_received ≡ m.packets_received
  pub forwarded : m'.packets_forwarded ≡ m.packets_forwarded
  pub dropped : m'.packets_dropped ≡ m.packets_dropped
  pub answered : m'.icmp_frag_needed_sent_total ≡ m.icmp_frag_needed_sent_total

pub kept :
    {m m' : ForwarderMetrics}
    → m'.packets_received ≡ m.packets_received
    → m'.packets_forwarded ≡ m.packets_forwarded
    → m'.packets_dropped ≡ m.packets_dropped
    → m'.icmp_frag_needed_sent_total ≡ m.icmp_frag_needed_sent_total
    → Kept m m'
kept a b c d = record { received = a; forwarded = b; dropped = c; answered = d }

pub Kept-trans : {m m' m'' : ForwarderMetrics} → Kept m m' → Kept m' m'' → Kept m m''
Kept-trans k l =
    kept (l.received ∙ k.received) (l.forwarded ∙ k.forwarded) (l.dropped ∙ k.dropped)
      (l.answered ∙ k.answered)

count_insert-Kept : (r : InsertResult) (m : ForwarderMetrics) → Kept m (count_insert r m)
unfolding count_insert
count_insert-Kept inserted m = kept refl refl refl refl
count_insert-Kept updated m = kept refl refl refl refl
count_insert-Kept evicted_expired m = kept refl refl refl refl
count_insert-Kept dropped_full m = kept refl refl refl refl

abbrev pub Chosen : ForwarderMetrics → Checked (RewriterThread × IpAddr) → Type 0
Chosen m panic = ⊥
Chosen m (value (w, ip)) = Kept m w.metrics

-- Past the lookup, and past the get.
abbrev pinned :
    RewriterThread
    → ℕ
    → FlowProto
    → TcpFlowState
    → ℕ
    → Option Backend
    → Checked (RewriterThread × IpAddr)
pinned w hash proto st now none = panic
pinned w hash proto st now (some b) = value (insert_tracked w hash b.ip proto st now, b.ip)

pin_backend-Chosen :
    (w : RewriterThread) (t : LookupTable) (hash : ℕ) (proto : FlowProto) (st : TcpFlowState)
    (now : ℕ)
    → IsFull t
    → Chosen w.metrics (pin_backend w t hash proto st now)
unfolding pin_backend insert_tracked
pin_backend-Chosen w t hash proto st now f =
    let (i, (b, _, e)) = lookup-IsFull t hash f in
    subst (λ o. Chosen w.metrics (pinned w hash proto st now o)) (sym e)
      (count_insert-Kept (Defs.insert w.conn_table hash b.ip proto st now).1 w.metrics)

Chosen-Kept :
    {m m' : ForwarderMetrics} (c : Checked (RewriterThread × IpAddr))
    → Kept m m'
    → Chosen m' c
    → Chosen m c
Chosen-Kept panic k h = h
Chosen-Kept (value (w, ip)) k h = Kept-trans k h

module _ (health : IpAddr → Option HealthStatus) (w : RewriterThread) (t : LookupTable) (hash : ℕ)
    (proto : FlowProto) (st : TcpFlowState) (now : ℕ) (f : IsFull t) where
  missed : RewriterThread
  missed =
      let m = w.metrics in
      record w { metrics = record m { conn_table_misses = m.conn_table_misses + 1 } }

  hit_unhealthy : RewriterThread
  hit_unhealthy =
      let m = w.metrics in
      record w {
        metrics = record m {
          conn_table_fallback_to_maglev_total = m.conn_table_fallback_to_maglev_total + 1;
        };
      }

  abbrev got : Option IpAddr → Checked (RewriterThread × IpAddr)
  got none = pin_backend missed t hash proto st now
  got (some ip) =
      let m = w.metrics in
      if is_healthy (health ip)
      then value (
        record w {
          metrics = record m { conn_table_hits = m.conn_table_hits + 1 };
          conn_table = Defs.touch w.conn_table hash now;
        },
        ip,
      )
      else pin_backend hit_unhealthy t hash proto st now

  got-Chosen : (o : Option IpAddr) → Chosen w.metrics (got o)
  unfolding missed hit_unhealthy
  got-Chosen none =
      Chosen-Kept (pin_backend missed t hash proto st now) (kept refl refl refl refl)
        (pin_backend-Chosen missed t hash proto st now f)
  got-Chosen (some ip) =
      if-holds (Chosen w.metrics) (is_healthy (health ip)) _ _ (λ _. kept refl refl refl refl)
        (λ _.
          Chosen-Kept (pin_backend hit_unhealthy t hash proto st now) (kept refl refl refl refl)
            (pin_backend-Chosen hit_unhealthy t hash proto st now f))

  pub choose_backend-Chosen : Chosen w.metrics (choose_backend health w t hash proto st now)
  unfolding choose_backend missed hit_unhealthy
  choose_backend-Chosen = got-Chosen (Defs.get w.conn_table hash now)

abbrev pub KeptBy : RewriterThread → RewriterThread → Type 0
KeptBy w r = Kept w.metrics r.metrics

pub transitions-Kept :
    (w : RewriterThread) (hash : ℕ) (flags : Option ℕ) (now : ℕ)
    → KeptBy w (transitions w hash flags now)
unfolding transitions apply_tcp_transitions
transitions-Kept w hash none now = kept refl refl refl refl
transitions-Kept w hash (some f) now =
    if-holds (KeptBy w) (rst f) _ _ (λ _. kept refl refl refl refl)
      (λ _.
        if-holds (KeptBy w) (fin f) _ _ (λ _. kept refl refl refl refl)
          (λ _.
            if-holds (KeptBy w) (ack f && not (syn f)) _ _ (λ _. kept refl refl refl refl)
              (λ _. kept refl refl refl refl)))

abbrev pub Noted : RewriterThread → Checked RewriterThread → Type 0
Noted w panic = ⊥
Noted w (value r) = KeptBy w r

Noted->>= {ℓ} :
    {A : Type ℓ} (w : RewriterThread) (c : Checked A) (k : A → Checked RewriterThread)
    → Runs c
    → ((a : A) → Noted w (k a))
    → Noted w (c >>= k)
Noted->>= w (value a) k r h = h a
Noted->>= w panic k r h = r

pub record_fragment-Noted :
    (hasher : Hasher) (w : RewriterThread) (frame : PacketBuf) (ip : IpAddr) (now : ℕ)
    → Fits frame
    → Noted w (record_fragment hasher w frame ip now)
unfolding record_fragment
record_fragment-Noted hasher w frame ip now fits =
    let (_, _, id_runs, fragment_runs, _, _) = readers-Runs (in_use frame) in
    sliced (Noted w) frame _ fits (
      Noted->>= w (is_fragment (in_use frame)) _ fragment_runs (λ b.
        if-holds (Noted w) (not b) _ _ (λ _. kept refl refl refl refl)
          (λ _. Noted->>= w (fragment_id (in_use frame)) _ id_runs on_id)))
  where
    on_id :
        (o : Option FragmentId)
        → Noted w (
            value (elim o [
              | none ↦ w
              | some f ↦
                  let m = w.metrics in
                  record w {
                    fragment_table =
                        FragmentTable.insert w.fragment_table (fragment_hash hasher f) ip now;
                    metrics = record m { fragment_first_total = m.fragment_first_total + 1 };
                  }
            ]))
    on_id none = kept refl refl refl refl
    on_id (some f) = kept refl refl refl refl
