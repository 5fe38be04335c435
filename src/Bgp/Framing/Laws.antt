-- ===== src/Bgp/Framing/Laws.antt =====
-- However the stream is cut into reads, the messages that are taken off it are those that were sent.
use mathlib.Core.Path.{subst}
use lb.Types.Net.{Bytes}
use lb.Prelude.{
  List, Option, [], ap, arith, length, none, refl, some, suc, zero, ℕ, ◌++◌, ◌<◌, ◌∷◌, ◌≡◌, ◌≤◌,
  ltb, Bool-cases, inl, inr, length-append, sym, ◌∙◌, ltb→lt, Option-cases,
}
use lb.Bgp.Framing.Take.{split_longer, split_shorter, take_message-part, take_message-whole}
use lb.Bgp.Framing.{take_message, take_messages, on_read, on_reads, Bytes}
use lb.Bgp.Messages.{parse_notification}
use lb.Bgp.Messages.Laws.{IsFrame}
use mathlib.Core.List.{append_assoc, append-nil, flatten}

-- What the first NOTIFICATION among the messages says.
unfoldable pub first_notification : List Bytes → Option (ℕ × ℕ)
first_notification [] = none
first_notification (f ∷ fs) = elim (parse_notification f) [
  | some error ↦ some error
  | none ↦ first_notification fs
]

unfoldable pub AllFrames : List Bytes → Type 0
AllFrames [] = Unit
AllFrames (f ∷ fs) = IsFrame f × AllFrames fs

-- What is true after a turn of the loop when `t` is still to come.
unfoldable Taken : List Bytes → Bytes → Option (ℕ × ℕ) × Bytes → Type 0
unfolding first_notification AllFrames
Taken fs t (some error, rest) = first_notification fs ≡ some error
Taken fs t (none, rest) =
    (gs : List Bytes) × AllFrames gs
    × (rest ++ t ≡ flatten gs)
    × (first_notification fs ≡ first_notification gs)
    × (t ≡ [] → gs ≡ [])

-- The frame at the front is not there in full.
waiting :
    (f : Bytes) (fs : List Bytes) (b t : Bytes)
    → AllFrames (f ∷ fs)
    → b ++ t ≡ flatten (f ∷ fs)
    → length b < length f
    → Taken (f ∷ fs) t (none, b)
unfolding Taken flatten
waiting f fs b t all e h = (
  f ∷ fs,
  all,
  e,
  refl,
  λ z.
      absurd
        (omega (arith, length-append b t, ap length e, ap length z, length-append f (flatten fs))),
)

-- What a turn does with what `take_message` returned.
abbrev next : ℕ → Option Bytes × Bytes → Option (ℕ × ℕ) × Bytes
next n r = elim r.0 [
  | none ↦ (none, r.1)
  | some msg ↦ elim (parse_notification msg) [
    | some error ↦ (some error, r.1)
    | none ↦ take_messages n r.1
  ]
]

module _ (n : ℕ) (b b' : Bytes) where
  take_messages-none : take_message b ≡ (none, b') → take_messages (suc n) b ≡ (none, b')
  unfolding take_messages
  take_messages-none e = ap (next n) e

  take_messages-error :
      (f : Bytes) (x : ℕ × ℕ)
      → take_message b ≡ (some f, b')
      → parse_notification f ≡ some x
      → take_messages (suc n) b ≡ (some x, b')
  unfolding take_messages
  take_messages-error f x e p = ap (next n) e ∙ rw (next, p) refl

  take_messages-more :
      (f : Bytes)
      → take_message b ≡ (some f, b')
      → parse_notification f ≡ none
      → take_messages (suc n) b ≡ take_messages n b'
  unfolding take_messages
  take_messages-more f e p = ap (next n) e ∙ rw (next, p) refl

-- What is true after a turn says of the messages only which NOTIFICATION is the first.
Taken-same :
    (fs gs : List Bytes) (t : Bytes) (r : Option (ℕ × ℕ) × Bytes)
    → first_notification gs ≡ first_notification fs
    → Taken fs t r
    → Taken gs t r
unfolding Taken
Taken-same fs gs t (some x, rest) p h = p ∙ h
Taken-same fs gs t (none, rest) p (hs, all, e, same, z) = (hs, all, e, p ∙ same, z)

take_messages-Taken :
    (n : ℕ) (fs : List Bytes) (b t : Bytes)
    → AllFrames fs
    → b ++ t ≡ flatten fs
    → length b ≤ n
    → Taken fs t (take_messages n b)
unfolding Taken take_messages AllFrames flatten take_message
take_messages-Taken zero [] b t all e h = ([], tt, e, refl, λ z. refl)
take_messages-Taken zero (f ∷ fs) b t (all, alls) e h =
    waiting f fs b t (all, alls) e (omega (arith, all.least, h))
take_messages-Taken (suc n) [] [] t all e h = ([], tt, e, refl, λ z. refl)
take_messages-Taken (suc n) [] (x ∷ b) t all e h = absurd (omega (arith, ap length e))
take_messages-Taken (suc n) (f ∷ fs) b t (all, alls) e h =
    elim (Bool-cases (ltb (length b) (length f))) [
      | inl l ↦
          let k = ltb→lt (length b) (length f) l in
          let (f', u) = split_shorter f b (flatten fs) t k e in
          let part =
            take_message-part b f' (subst IsFrame u all) (subst (λ x. length b < length x) u k) in
          subst (Taken (f ∷ fs) t) (sym (take_messages-none n b b part))
            (waiting f fs b t (all, alls) e k)
      | inr l ↦
          let (b', u, v) = split_longer f b (flatten fs) t (ground arith) e in
          let whole = ap take_message u ∙ take_message-whole f b' all in
          elim (Option-cases (parse_notification f)) [
            | inl p ↦ subst (Taken (f ∷ fs) t) (sym (take_messages-more n b b' f whole p)) (
                Taken-same fs (f ∷ fs) t (take_messages n b') (rw (first_notification, p) refl) (
                  take_messages-Taken n fs b' t alls v
                    (omega (arith, h, all.least, ap length u, length-append f b'))))
            | inr (x, p) ↦
                subst (Taken (f ∷ fs) t) (sym (take_messages-error n b b' f x whole p))
                  (rw (first_notification, p) refl)
          ]
    ]

-- What a read leaves to the reads after it.
abbrev after_read : List Bytes → Option (ℕ × ℕ) × Bytes → Option (ℕ × ℕ) × Bytes
after_read chunks r = elim r.0 [ some e ↦ (some e, r.1) | none ↦ on_reads r.1 chunks ]

after_read-Taken :
    (cs : List Bytes) (fs : List Bytes) (t : Bytes) (r : Option (ℕ × ℕ) × Bytes)
    → Taken fs (flatten cs ++ t) r
    → ((gs : List Bytes) (b : Bytes)
        → AllFrames gs
        → b ++ (flatten cs ++ t) ≡ flatten gs
        → (flatten cs ++ t ≡ [] → gs ≡ [])
        → Taken gs t (on_reads b cs))
    → Taken fs t (after_read cs r)
unfolding Taken
after_read-Taken cs fs t (some x, rest) h k = h
after_read-Taken cs fs t (none, rest) (gs, all, e, same, z) k =
    Taken-same gs fs t (on_reads rest cs) same (k gs rest all e z)

on_reads-Taken :
    (cs : List Bytes) (fs : List Bytes) (b t : Bytes)
    → AllFrames fs
    → b ++ (flatten cs ++ t) ≡ flatten fs
    → (flatten cs ++ t ≡ [] → fs ≡ [])
    → Taken fs t (on_reads b cs)
unfolding Taken on_reads on_read flatten
on_reads-Taken [] fs b t all e z = (fs, all, e, refl, z)
on_reads-Taken (c ∷ cs) fs b t all e z =
    let whole : (b ++ c) ++ (flatten cs ++ t) ≡ flatten fs =
      append_assoc b c (flatten cs ++ t) ∙ ap (◌++◌ b) (sym (append_assoc c (flatten cs) t)) ∙ e in
    let step =
      take_messages-Taken (length (b ++ c)) fs (b ++ c) (flatten cs ++ t) all whole (omega arith) in
    after_read-Taken cs fs t (take_messages (length (b ++ c)) (b ++ c)) step
      (λ gs b'. on_reads-Taken cs gs b' t)

no_bytes : (fs : List Bytes) → AllFrames fs → flatten fs ≡ [] → fs ≡ []
unfolding AllFrames flatten
no_bytes [] all e = refl
no_bytes (f ∷ fs) (all, alls) e =
    absurd (omega (arith, all.least, ap length e, length-append f (flatten fs)))

all_taken :
    (fs : List Bytes) (r : Option (ℕ × ℕ) × Bytes)
    → Taken fs [] r
    → (r.0 ≡ first_notification fs) × (first_notification fs ≡ none → r ≡ (none, []))
unfolding Taken first_notification flatten
all_taken fs (some x, rest) h = (sym h, λ e. absurd (cc (h, e)))
all_taken fs (none, rest) (gs, all, e, same, z) =
    let end : rest ≡ [] = sym (append-nil rest) ∙ e ∙ ap flatten (z refl) in
    (sym (same ∙ ap first_notification (z refl)), λ _. ap (λ x. (none, x)) end)

-- The messages `fs` that a peer sends are frames. However their bytes are cut into the chunks that
-- the session's reads return, the session ends with the first NOTIFICATION among the messages, with
-- its code and subcode; and when there is no NOTIFICATION among them, it goes on with nothing left
-- in its buffer, each message taken whole.
pub on_reads-flatten :
    (fs cs : List Bytes)
    → AllFrames fs
    → flatten cs ≡ flatten fs
    → ((on_reads [] cs).0 ≡ first_notification fs)
      × (first_notification fs ≡ none → on_reads [] cs ≡ (none, []))
on_reads-flatten fs cs all e =
    let e' : flatten cs ++ [] ≡ flatten fs = append-nil (flatten cs) ∙ e in
    all_taken fs (on_reads [] cs)
      (on_reads-Taken cs fs [] [] all e' (λ z. no_bytes fs all (sym e' ∙ z)))
