-- ===== src/Forwarder/Rewriter/Tests.antt =====
-- The batch's properties, with a pipeline that drops empty packets and on packets that are too short.
use lb.Forwarder.PacketBuf.{PacketBuf}
use lb.Prelude.{arith, List, [], if◌then◌else◌, length, ℕ, ◌==◌, ◌∷◌, ◌≡◌}
use lb.Forwarder.Rewriter.Sample.{thread, seeded, matcher, web, small_table, one_table}
use lb.Forwarder.Rewriter.Batch.{process_batch}
use lb.Forwarder.Rewriter.Conserved.{EachFits, Settled, process_batch-Settled}
use lb.Prelude.{none}
use lb.Forwarder.Rewriter.Steps.{RewriterThread, ProcessResult, forwarded, dropped}
use lb.Forwarder.Rewriter.Batch.{batch_loop, emit}
use lb.Forwarder.Rewriter.Laws.{front, batch_loop-front}
use lb.Prelude.Checked.{Checked, value}

one : RewriterThread → PacketBuf → Checked (RewriterThread × ProcessResult)
one r p = if p.len == 0 then value (r, dropped) else value (r, forwarded p)

abbrev packet : ℕ → PacketBuf
packet n = record { bytes = 1 ∷ 2 ∷ 3 ∷ []; len = n }

abbrev packets : List PacketBuf
packets = packet 0 ∷ packet 2 ∷ packet 0 ∷ packet 3 ∷ []

batch_loop-front_example :
    front (batch_loop one (length packets) thread packets 0 0) ≡ emit one thread packets
batch_loop-front_example = batch_loop-front one thread packets

packets-EachFits : EachFits packets
unfolding EachFits
packets-EachFits = (omega arith, (omega arith, (omega arith, (omega arith, tt))))

process_batch-Settled_example :
    Settled thread.metrics 4
      (process_batch seeded (λ ip. none) matcher ((web, small_table) ∷ []) thread packets 0)
process_batch-Settled_example =
    process_batch-Settled seeded (λ ip. none) matcher ((web, small_table) ∷ []) thread packets 0
      one_table packets-EachFits
