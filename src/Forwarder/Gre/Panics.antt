-- ===== src/Forwarder/Gre/Panics.antt =====
-- The encapsulation never panics.
use lb.Prelude.{[], arith, length, ltb, ℕ, ◌+◌, ◌∷◌, ◌≤◌}
use lb.Prelude.Checked.{Runs, if-Runs, >>=-Runs}
use lb.Types.Net.{Bytes, Ipv4Addr}
use lb.Forwarder.PacketBuf.{PacketBuf, overwrite}
use lb.Forwarder.Checksum.{ip_checksum}
use lb.Forwarder.Gre.{encapsulate_fitting, encapsulate_ipv4, encapsulate_ipv4_buf, outer_header}
use lb.Forwarder.Gre.Laws.{inner_proto-value}

encapsulate_fitting-Runs :
    (data' : Bytes) (n : ℕ) (s d : Ipv4Addr)
    → 24 ≤ length data'
    → Runs (encapsulate_fitting data' n s d)
unfolding encapsulate_fitting outer_header overwrite ip_checksum
encapsulate_fitting-Runs [] n s d h = absurd (omega arith)
encapsulate_fitting-Runs (x ∷ rest) n s d h = let (p, e) = inner_proto-value n x rest in rw e tt

pub encapsulate_ipv4-Runs : (pkt : PacketBuf) (s d : Ipv4Addr) → Runs (encapsulate_ipv4 pkt s d)
unfolding encapsulate_ipv4 encapsulate_ipv4_buf
encapsulate_ipv4-Runs pkt s d =
    >>=-Runs (encapsulate_ipv4_buf pkt.bytes pkt.len s d) _
      (if-Runs (ltb (length pkt.bytes) (pkt.len + 24)) _ _ (λ _. tt)
        (λ e.
          >>=-Runs (encapsulate_fitting pkt.bytes pkt.len s d) _
            (encapsulate_fitting-Runs pkt.bytes pkt.len s d (ground arith)) (λ _. tt)))
      (λ _. tt)
