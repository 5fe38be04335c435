-- ===== src/Forwarder/Threading/Worker/Sizes.antt =====
-- A rewriter thread leaves a frame with its size, and with a length within it.
use lb.Prelude.{
  List, Option, ℕ, none, some, true, false, ◌≡◌, ◌≤◌, ◌+◌, arith, length, ◌∙◌, Bool, Bool-cases,
  inl, inr, if◌then◌else◌, ltb, take, lookup,
}
use lb.Prelude.Checked.{Checked, value, panic, ◌>>=◌, if-holds}
use lb.Types.Net.{Bytes, IpAddr, v4, v6, Ipv4Addr, Bytes-discrete}
use lb.Types.Backend.{HealthStatus, BackendPoolId}
use lb.Types.Packet.{PacketMeta, from_ipv4_bytes, is_non_first_fragment, fragment_id}
use lb.Hashing.Permutation.{Hasher}
use lb.Hashing.Table.{LookupTable}
use lb.Forwarder.Checksum.{ip_checksum}
use lb.Forwarder.Gre.{
  encapsulate_ipv4, encapsulate_ipv4_buf, encapsulate_fitting, inner_proto, encap_overhead,
}
use lb.Forwarder.PacketBuf.{PacketBuf, as_slice, overwrite, length-overwrite}
use lb.Forwarder.VipMatcher.{VipMatcher, match_packet}
use lb.Forwarder.Rewriter.Steps.{RewriterThread}
use lb.Forwarder.Rewriter.Steps.{choose_backend, record_fragment}
use lb.Forwarder.Threading.Worker.{count_no_mapping, count_subsequent, count_forwarded}
use lb.Forwarder.Threading.Worker.{
  Verdict, tunnel, later_fragment_frame, route_frame, process_frame, mapped_backend, count_dropped,
}

-- The size of the array, and a length within it.
pub record Whole (p : PacketBuf) : Type 0 where
  pub size : length p.bytes ≡ 2048
  pub within : p.len ≤ 2048

-- What a worker makes of a frame, unless it panics.
abbrev pub WholeThen : Checked Verdict → Type 0
WholeThen panic = Unit
WholeThen (value (w, frame, goes_on)) = Whole frame

WholeThen->>= {ℓ} :
    {A : Type ℓ} (c : Checked A) (k : A → Checked Verdict)
    → ((a : A) → WholeThen (k a))
    → WholeThen (c >>= k)
WholeThen->>= (value a) k h = h a
WholeThen->>= panic k h = tt

-- The buffer that an encapsulation leaves, if it does not panic.
abbrev Sized : ℕ → Checked Bytes → Type 0
Sized n panic = Unit
Sized n (value bytes) = length bytes ≡ n

Sized->>= :
    {A : Type 0} (n : ℕ) (c : Checked A) (k : A → Checked Bytes)
    → ((a : A) → Sized n (k a))
    → Sized n (c >>= k)
Sized->>= n (value a) k h = h a
Sized->>= n panic k h = tt

encapsulate_fitting-Sized :
    (data' : Bytes) (n : ℕ) (s d : Ipv4Addr)
    → Sized (length data') (encapsulate_fitting data' n s d)
unfolding encapsulate_fitting
encapsulate_fitting-Sized data' n s d =
    let shifted = overwrite data' encap_overhead (take n data') in
    Sized->>= (length data') (inner_proto n data') _ (λ proto.
      Sized->>= (length data') (ip_checksum _) _ (λ checksum.
        length-overwrite _ _ _
        ∙ length-overwrite _ _ _
        ∙ length-overwrite shifted 0 _
        ∙ length-overwrite data' encap_overhead (take n data')))

abbrev WholeFirst : Checked (PacketBuf × Bool) → Type 0
WholeFirst panic = Unit
WholeFirst (value (p, b)) = Whole p

encapsulate_ipv4-Whole :
    (p : PacketBuf) (s d : Ipv4Addr) → Whole p → WholeFirst (encapsulate_ipv4 p s d)
unfolding encapsulate_ipv4 encapsulate_ipv4_buf
encapsulate_ipv4-Whole p s d h = elim (Bool-cases (ltb (length p.bytes) (p.len + encap_overhead))) [
  | inl t ↦ rw t h
  | inr t ↦ rw t (
      fitted (encapsulate_fitting p.bytes p.len s d) (encapsulate_fitting-Sized p.bytes p.len s d)
        (let fits : p.len + encap_overhead ≤ length p.bytes = ground arith in fits))
]
  where
    fitted :
        (c : Checked Bytes)
        → Sized (length p.bytes) c
        → p.len + encap_overhead ≤ length p.bytes
        → WholeFirst (
            ◌>>=◌ {A = Bytes} {B = Option (Bytes × ℕ)} c
              (λ written. value (some (written, p.len + encap_overhead)))
            >>= (λ r. value (elim r [
              | none ↦ (p, false)
              | some (bytes, len) ↦ (record { bytes = bytes; len = len }, true)
            ])))
    fitted panic e f = tt
    fitted (value bytes) e f = record { size = e ∙ h.size; within = omega (arith, h.size, f) }

tunnel-Whole :
    (count : RewriterThread → RewriterThread) (w : RewriterThread) (frame : PacketBuf)
    (src : Ipv4Addr) (dst : IpAddr)
    → Whole frame
    → WholeThen (tunnel count w frame src dst)
unfolding tunnel
tunnel-Whole count w frame src (v6 ip) h = h
tunnel-Whole count w frame src (v4 ip) h =
    after (encapsulate_ipv4 frame src ip) (encapsulate_ipv4-Whole frame src ip h)
  where
    after :
        (c : Checked (PacketBuf × Bool))
        → WholeFirst c
        → WholeThen (
            c
            >>= (λ r. value (if r.1 then (count w, r.0, true) else (count_dropped w, r.0, false))))
    after panic h = tt
    after (value (p, true)) h = h
    after (value (p, false)) h = h

later_fragment_frame-Whole :
    (hasher : Hasher) (w : RewriterThread) (frame : PacketBuf) (src : Ipv4Addr) (now : ℕ)
    → Whole frame
    → WholeThen (later_fragment_frame hasher w frame src now)
unfolding later_fragment_frame
later_fragment_frame-Whole hasher w frame src now h =
    WholeThen->>= (as_slice frame) _ (λ slice.
      WholeThen->>= (fragment_id slice) _ (λ fid. mapped (mapped_backend hasher w fid now)))
  where
    mapped :
        (o : Option IpAddr)
        → WholeThen (elim o [
          | none ↦ value (count_no_mapping w, frame, false)
          | some backend_ip ↦ tunnel count_subsequent w frame src backend_ip
        ])
    mapped none = h
    mapped (some ip) = tunnel-Whole count_subsequent w frame src ip h

route_frame-Whole :
    (hasher : Hasher) (health : IpAddr → Option HealthStatus) (w : RewriterThread)
    (frame : PacketBuf) (src : Ipv4Addr) (meta : PacketMeta) (t : LookupTable) (now : ℕ)
    → Whole frame
    → WholeThen (route_frame hasher health w frame src meta t now)
unfolding route_frame
route_frame-Whole hasher health w frame src meta t now h =
    WholeThen->>= (choose_backend health w t _ _ _ now) _ (λ r.
      WholeThen->>= (record_fragment hasher _ frame r.1 now) _
        (λ n. tunnel-Whole count_forwarded n frame src r.1 h))

pub process_frame-Whole :
    (hasher : Hasher) (health : IpAddr → Option HealthStatus) (vip_matcher : VipMatcher)
    (tables : List (BackendPoolId × LookupTable)) (w : RewriterThread) (frame : PacketBuf)
    (src : Ipv4Addr) (now : ℕ)
    → Whole frame
    → WholeThen (process_frame hasher health vip_matcher tables w frame src now)
unfolding process_frame
process_frame-Whole hasher health vip_matcher tables w frame src now h =
    WholeThen->>= (as_slice frame) _ (λ slice.
      WholeThen->>= (is_non_first_fragment slice) _ (λ later.
        if-holds WholeThen later _ _
          (λ _. later_fragment_frame-Whole hasher received frame src now h)
          (λ _. WholeThen->>= (from_ipv4_bytes slice) _ on_parsed)))
  where
    received : RewriterThread
    received =
        let m = w.metrics in
        record w { metrics = record m { packets_received = m.packets_received + 1 } }

    on_table :
        (meta : PacketMeta) (o : Option LookupTable)
        → WholeThen (elim o [
          | none ↦ value (count_dropped received, frame, false)
          | some table ↦ route_frame hasher health received frame src meta table now
        ])
    on_table meta none = h
    on_table meta (some t) = route_frame-Whole hasher health received frame src meta t now h

    on_pool :
        (meta : PacketMeta) (o : Option BackendPoolId)
        → WholeThen (elim o [
          | none ↦ value (count_dropped received, frame, false)
          | some pool_id ↦ elim (lookup Bytes-discrete pool_id tables) [
            | none ↦ value (count_dropped received, frame, false)
            | some table ↦ route_frame hasher health received frame src meta table now
          ]
        ])
    on_pool meta none = h
    on_pool meta (some id) = on_table meta (lookup Bytes-discrete id tables)

    on_parsed :
        (o : Option PacketMeta)
        → WholeThen (elim o [
          | none ↦ value (count_dropped received, frame, false)
          | some meta ↦ elim (match_packet vip_matcher meta.dst_ip meta.protocol meta.dst_port) [
            | none ↦ value (count_dropped received, frame, false)
            | some pool_id ↦ elim (lookup Bytes-discrete pool_id tables) [
              | none ↦ value (count_dropped received, frame, false)
              | some table ↦ route_frame hasher health received frame src meta table now
            ]
          ]
        ])
    on_parsed none = h
    on_parsed (some meta) =
        on_pool meta (match_packet vip_matcher meta.dst_ip meta.protocol meta.dst_port)
