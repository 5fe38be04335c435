-- ===== src/Bgp/Framing/Take.antt =====
-- `take_message` on a stream of frames: a frame is taken whole, and a part of one is left to wait.
use lb.Types.Net.{Bytes, from_be_bytes, Bytes-discrete}
use lb.Prelude.{
  Bool-cases, Dec-yes, [], ap, arith, drop, get_or, get_or-append_left, if◌then◌else◌, inl, inr,
  length, length-append, ltb, lt→ltb, none, not-ltb, refl, some, suc, sym, take, zero, ℕ, ◌++◌, ◌<◌,
  ◌∙◌, ◌∷◌, ◌≡◌, ◌≤◌,
}
use mathlib.Core.List.{head-eq_of_cons-eq, tail-eq_of_cons-eq}
use lb.Bgp.Framing.{take_message, Bytes, from_be_bytes, Bytes-discrete}
use lb.Bgp.Messages.{marker}
use lb.Bgp.Messages.Laws.{IsFrame}

take-append_left : (n : ℕ) (xs ys : Bytes) → n ≤ length xs → take n (xs ++ ys) ≡ take n xs
take-append_left zero xs ys h = refl
take-append_left (suc n) [] ys h = absurd (omega arith)
take-append_left (suc n) (x ∷ xs) ys h = ap (◌∷◌ x) (take-append_left n xs ys (omega arith))

take-append_self : (xs ys : Bytes) → take (length xs) (xs ++ ys) ≡ xs
take-append_self [] ys = refl
take-append_self (x ∷ xs) ys = ap (◌∷◌ x) (take-append_self xs ys)

drop-append_self : (xs ys : Bytes) → drop (length xs) (xs ++ ys) ≡ ys
drop-append_self [] ys = refl
drop-append_self (x ∷ xs) ys = drop-append_self xs ys

-- Two ways to cut the same stream.
pub split_longer :
    (f b g t : Bytes)
    → length f ≤ length b
    → b ++ t ≡ f ++ g
    → (b' : Bytes) × (b ≡ f ++ b') × (b' ++ t ≡ g)
split_longer [] b g t h e = (b, refl, e)
split_longer (x ∷ f) [] g t h e = absurd (omega arith)
split_longer (x ∷ f) (y ∷ b) g t h e =
    let p = head-eq_of_cons-eq e in
    let q = tail-eq_of_cons-eq e in
    let (b', u, v) = split_longer f b g t (omega arith) q in (b', rw (p, u) refl, v)

pub split_shorter :
    (f b g t : Bytes) → length b < length f → b ++ t ≡ f ++ g → (f' : Bytes) × (f ≡ b ++ f')
split_shorter f [] g t h e = (f, refl)
split_shorter [] (y ∷ b) g t h e = absurd (omega arith)
split_shorter (x ∷ f) (y ∷ b) g t h e =
    let p = head-eq_of_cons-eq e in
    let q = tail-eq_of_cons-eq e in
    let (f', u) = split_shorter f b g t (omega arith) q in (f', rw (p, u) refl)

-- Behind a marker and a good length.
take_message-found :
    (buf : Bytes)
    → take 16 buf ≡ marker
    → 19 ≤ length buf
    → (n : ℕ) → from_be_bytes (get_or buf 16 0) (get_or buf 17 0) ≡ n
    → 19 ≤ n
    → n ≤ 4096
    → take_message buf
      ≡ (if ltb (length buf) n then (none, buf) else (some (take n buf), drop n buf))
unfolding take_message
take_message-found buf m k n e h h' =
    let (p, q) = Dec-yes (Bytes-discrete (take 16 buf) marker) m in
    rw (take_message, not-ltb (length buf) 19 k, q, e, not-ltb n 19 h, not-ltb 4096 n h') refl

-- The bytes that the reader looks at are those of the frame.
pub take_message-whole : (f rest : Bytes) → IsFrame f → take_message (f ++ rest) ≡ (some f, rest)
take_message-whole f rest h =
    let l = length-append f rest in
    take_message-found (f ++ rest) (take-append_left 16 f rest (omega (arith, h.least)) ∙ h.marked)
      (omega (arith, l, h.least)) (length f)
      (rw
        (
          get_or-append_left f rest 16 0 (omega (arith, h.least)),
          get_or-append_left f rest 17 0 (omega (arith, h.least)),
        )
        h.sized)
      h.least h.most
    ∙ rw
        (
          not-ltb (length (f ++ rest)) (length f) (omega (arith, l)),
          take-append_self f rest,
          drop-append_self f rest,
        )
        refl

pub take_message-part :
    (b f' : Bytes) → IsFrame (b ++ f') → length b < length (b ++ f') → take_message b ≡ (none, b)
unfolding take_message
take_message-part b f' h k = elim (Bool-cases (ltb (length b) 19)) [
  | inl e ↦ rw (take_message, e) refl
  | inr e ↦
      let l : 19 ≤ length b = ground arith in
      take_message-found b (sym (take-append_left 16 b f' (omega (arith, l))) ∙ h.marked) l
        (length (b ++ f'))
        (rw
          (
            sym (get_or-append_left b f' 16 0 (omega (arith, l))),
            sym (get_or-append_left b f' 17 0 (omega (arith, l))),
          )
          h.sized)
        h.least h.most
      ∙ rw (lt→ltb (length b) (length (b ++ f')) k) refl
]
