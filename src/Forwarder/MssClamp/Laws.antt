-- ===== src/Forwarder/MssClamp/Laws.antt =====
-- The accesses of `clamp_mss` (mss_clamp.rs) to the packet, and the end of its loop.
use lb.Forwarder.Checksum.{incremental_checksum}
use lb.Types.Packet.Parsed.{u16_at-value}
use lb.Forwarder.PacketBuf.{overwrite, length-overwrite}
use lb.Prelude.Checked.{Checked, value, panic, if-holds, index-value}
-- The run ends with the packet's length unchanged, and the packet unchanged unless it was clamped.
use lb.Forwarder.MssClamp.{
  ClampResult, clamp_option, scan, incremental_checksum_update, Checked, value, clamped,
  mss_missing, overwrite, to_be_bytes, incremental_checksum, noop, clamp_tcp, clamp_mss, not_syn,
  not_tcp,
}
use lb.Types.Net.{Bytes, from_be_bytes, to_be_bytes}
use lb.Prelude.{
  arith, get_or, inl, inr, length, ltb, not, refl, suc, zero, ℕ, ◌+◌, ◌<◌, ◌≡◌, ◌≤◌, ◌⊎◌, leb, ◌&&◌,
  ◌-◌, ◌==◌, bit_and, ◌*◌, ◌/◌, ◌||◌,
}

unfoldable pub Keeps : Bytes → Checked (Bytes × ClampResult) → Type 0
Keeps data' panic = ⊥
Keeps data' (value (w, r)) = (length w ≡ length data') × ((r ≡ clamped) ⊎ (w ≡ data'))

module _ (data' : Bytes) (max_mss ihl options_end : ℕ) (fits : options_end ≤ length data')
    (header : ihl + 20 ≤ length data') where
  unchanged : (r : ClampResult) → Keeps data' (value (data', r))
  unfolding Keeps
  unchanged r = (refl, inr refl)

  clamp_option-Keeps :
      (offset : ℕ) → Keeps data' (clamp_option data' max_mss ihl options_end offset)
  unfolding Keeps clamp_option incremental_checksum_update
  clamp_option-Keeps offset =
      if-holds (Keeps data') (ltb options_end (offset + 4)) _ _ (λ _. unchanged mss_missing)
        (λ no_cut.
          let room : offset + 4 ≤ options_end = ground arith in
          let current =
            from_be_bytes (get_or data' (offset + 2) 0) (get_or data' (offset + 2 + 1) 0) in
          let written = overwrite data' (offset + 2) (to_be_bytes max_mss) in
          let size : length written ≡ length data' =
            length-overwrite data' (offset + 2) (to_be_bytes max_mss) in
          rw (u16_at-value data' (offset + 2) (omega arith), Keeps)
            (if-holds (Keeps data') (ltb max_mss current) _ _
              (λ _.
                rw (u16_at-value written (ihl + 16) (omega arith), Keeps)
                  (
                    omega (
                      arith,
                      length-overwrite written (ihl + 16) (
                          to_be_bytes (
                            incremental_checksum
                              (from_be_bytes (get_or written (ihl + 16) 0)
                                (get_or written (ihl + 16 + 1) 0))
                              current max_mss)),
                    ),
                    inl refl,
                  ))
              (λ _. unchanged noop)))

  -- One round of the loop, when every later round keeps.
  scan-step :
      (n offset : ℕ)
      → (offset < options_end
          → (i : ℕ) → offset < i
          → Keeps data' (scan n data' max_mss ihl options_end i))
      → Keeps data' (scan (suc n) data' max_mss ihl options_end offset)
  unfolding Keeps scan
  scan-step n offset later =
      if-holds (Keeps data') (not (ltb offset options_end)) _ _ (λ _. unchanged mss_missing)
        (λ inside.
          let lt : offset < options_end = ground arith in
          let kind = get_or data' offset 0 in
          let len = get_or data' (offset + 1) 0 in
          rw (index-value data' offset (omega arith), Keeps)
            (if-holds (Keeps data') (kind == 0) _ _ (λ _. unchanged mss_missing)
              (λ _.
                if-holds (Keeps data') (kind == 1) _ _ (λ _. later lt (offset + 1) (omega arith))
                  (λ _.
                    if-holds (Keeps data') (leb options_end (offset + 1)) _ _
                      (λ _. unchanged mss_missing)
                      (λ more.
                        let lt2 : offset + 1 < options_end = ground arith in
                        rw (index-value data' (offset + 1) (omega arith), Keeps)
                          (if-holds (Keeps data') (ltb len 2) _ _ (λ _. unchanged mss_missing)
                            (λ long.
                              let two : 2 ≤ len = ground arith in
                              if-holds (Keeps data') ((kind == 2) && (len == 4)) _ _
                                (λ _. clamp_option-Keeps offset)
                                (λ _. later lt (offset + len) (omega arith)))))))))

  -- Each round goes on by at least 1, so that the fuel outlasts the options.
  scan-Keeps :
      (n offset : ℕ)
      → options_end ≤ offset + n
      → Keeps data' (scan (suc n) data' max_mss ihl options_end offset)
  scan-Keeps zero offset fuel = scan-step zero offset (λ lt i h. absurd (omega arith))
  scan-Keeps (suc n) offset fuel = scan-step (suc n) offset (λ lt i h. scan-Keeps n i (omega arith))

module _ (data' : Bytes) (max_mss : ℕ) where
  same : (r : ClampResult) → Keeps data' (value (data', r))
  unfolding Keeps
  same r = (refl, inr refl)

  clamp_tcp-Keeps : (ihl : ℕ) → ihl + 20 ≤ length data' → Keeps data' (clamp_tcp data' max_mss ihl)
  unfolding Keeps clamp_tcp
  clamp_tcp-Keeps ihl header =
      let flags = get_or data' (ihl + 13) 0 in
      let word = get_or data' (ihl + 12) 0 in
      rw (index-value data' (ihl + 13) (omega arith), Keeps)
        (if-holds (Keeps data') (bit_and flags 0x02 == 0) _ _ (λ _. same not_syn)
          (λ _.
            rw (index-value data' (ihl + 12) (omega arith), Keeps)
              (if-holds (Keeps data')
                (ltb (word / 16 * 4) 20 || ltb (length data') (ihl + word / 16 * 4)) _ _
                (λ _. same mss_missing)
                (λ fits.
                  let long : 20 ≤ word / 16 * 4 = ground arith in
                  let whole : ihl + word / 16 * 4 ≤ length data' = ground arith in
                  scan-Keeps data' max_mss ihl (ihl + word / 16 * 4) whole header
                    (word / 16 * 4 - 20) (ihl + 20) (omega arith)))))

-- Clamping never reads or writes outside of the packet, whatever its bytes are, and its loop over
-- the options ends: the packet keeps its length, and is unchanged unless the result is `Clamped`.
pub clamp_mss-Keeps : (data' : Bytes) (max_mss : ℕ) → Keeps data' (clamp_mss data' max_mss)
unfolding Keeps clamp_mss
clamp_mss-Keeps data' max_mss =
    let first = get_or data' 0 0 in
    let ihl = bit_and first 0x0F * 4 in
    if-holds (Keeps data') (ltb (length data') 40) _ _ (λ _. same data' max_mss not_tcp)
      (λ forty.
        let long : 40 ≤ length data' = ground arith in
        rw (index-value data' 0 (omega arith), Keeps)
          (if-holds (Keeps data') (not (first / 16 == 4)) _ _ (λ _. same data' max_mss not_tcp)
            (λ _.
              rw (index-value data' 9 (omega arith), Keeps)
                (if-holds (Keeps data')
                  (not (get_or data' 9 0 == 6) || ltb (length data') (ihl + 20)) _ _
                  (λ _. same data' max_mss not_tcp)
                  (λ h.
                    let header : ihl + 20 ≤ length data' = ground arith in
                    clamp_tcp-Keeps data' max_mss ihl header)))))
