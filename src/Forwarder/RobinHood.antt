-- ===== src/Forwarder/RobinHood.antt =====
-- Robin Hood hashing, apart from what a slot holds: a layout says which hash stands in a slot.
-- The theory that the connection table and the fragment table of crates/lb-forwarder share.
use mathlib.Core.Path.{fun_ext}
use native.Mathlib.Nat.{mod-add-mod, mod-lt}
use lb.Prelude.{
  Option, arith, if◌then◌else◌, some, ℕ, ◌%◌, ◌+◌, ◌<◌, ◌==◌, ◌≡◌, ◌≢◌, ◌≤◌, ap, suc, sym, zero,
  ℕ_discrete, ◌-◌, ◌∙◌,
}
use lb.Forwarder.Ring.{next, distance, next-lt, next-cases, distance-cases, sum-cases}

-- The hash in each slot; `none` is a free slot.
abbrev pub Layout : Type 0
Layout = ℕ → Option ℕ

unfoldable pub put : Layout → ℕ → ℕ → Layout
put l i hash j = if i == j then some hash else l j

-- No hash stands further from its first slot than one more than the slot before holds from its.
pub record IsRobinHood (cap : ℕ) (l : Layout) : Type 0 where
  pub before :
      (i hash : ℕ)
      → i < cap
      → l (next cap i) ≡ some hash
      → 0 < distance cap hash (next cap i)
      → (g : ℕ) × (l i ≡ some g) × (distance cap hash (next cap i) ≤ distance cap g i + 1)

pub record IsDistinct (cap : ℕ) (l : Layout) : Type 0 where
  pub same : (i j hash : ℕ) → i < cap → j < cap → l i ≡ some hash → l j ≡ some hash → i ≡ j

-- A probe for `hash` that has come to slot `i` after `d` steps: the slot before is as far from
-- home as the probe was there, and `hash` does not stand nearer to its first slot.
pub record Probe (cap : ℕ) (l : Layout) (hash i d : ℕ) : Type 0 where
  pub at : i ≡ (hash % cap + d) % cap
  pub prior :
      (p : ℕ)
      → p < cap
      → i ≡ next cap p
      → 0 < d
      → (g : ℕ) × (l p ≡ some g) × (d ≤ distance cap g p + 1)
  pub ahead : (j : ℕ) → j < cap → l j ≡ some hash → d ≤ distance cap hash j

put_self : (l : Layout) (i hash : ℕ) → put l i hash i ≡ some hash
unfolding put
put_self l i hash = ground arith

put_ne : (l : Layout) (i j hash : ℕ) → i ≢ j → put l i hash j ≡ l j
unfolding put
put_ne l i j hash h = ground arith

module _ (cap : ℕ) (pos : 0 < cap) where
  -- The slot `d` steps on from the first one is at distance `d`.
  pub distance-at : (hash i d : ℕ) → d < cap → i ≡ (hash % cap + d) % cap → distance cap hash i ≡ d
  distance-at hash i d b e =
      let start = mod-lt hash pos in
      let inside : i < cap = rw e (mod-lt _ pos) in
      omega (arith, distance-cases cap pos hash i inside, sum-cases cap pos (hash % cap) d start b)

  pub distance-lt : (hash i : ℕ) → i < cap → distance cap hash i < cap
  distance-lt hash i h =
      let start = mod-lt hash pos in omega (arith, distance-cases cap pos hash i h)

  pub at-distance : (hash i : ℕ) → i < cap → i ≡ (hash % cap + distance cap hash i) % cap
  at-distance hash i b =
      let start = mod-lt hash pos in
      omega (
        arith,
        distance-cases cap pos hash i b,
        sum-cases cap pos (hash % cap) (distance cap hash i) start (distance-lt hash i b),
      )

  -- One step on is one further.
  pub at-next :
      (hash i d : ℕ) → i ≡ (hash % cap + d) % cap → next cap i ≡ (hash % cap + (d + 1)) % cap
  unfolding next
  at-next hash i d e =
      let group : hash % cap + d + 1 ≡ hash % cap + (d + 1) = omega arith in
      rw e (mod-add-mod (hash % cap + d) cap 1 ∙ ap (λ (t : ℕ). t % cap) group)

  pub next-injective : (i j : ℕ) → i < cap → j < cap → next cap i ≡ next cap j → i ≡ j
  next-injective i j b c e = omega (arith, next-cases cap pos i b, next-cases cap pos j c)

  pub next-distance :
      (hash i : ℕ)
      → i < cap
      → 0 < distance cap hash (next cap i)
      → distance cap hash (next cap i) ≡ distance cap hash i + 1
  next-distance hash i b h =
      let start = mod-lt hash pos in
      omega (
        arith,
        next-cases cap pos i b,
        distance-cases cap pos hash i b,
        distance-cases cap pos hash (next cap i) (next-lt cap pos i),
      )

  -- The slots with one hash's distances are told apart by them.
  pub distance-injective :
      (hash i j : ℕ) → i < cap → j < cap → distance cap hash i ≡ distance cap hash j → i ≡ j
  distance-injective hash i j b c e =
      at-distance hash i b ∙ ap (λ (t : ℕ). (hash % cap + t) % cap) e ∙ sym (at-distance hash j c)

  -- On the way from the first slot of a hash to the slot where it stands, every slot is taken,
  -- by a hash that stands as far from its own first slot at least.
  pub way :
      (l : Layout) (hash j : ℕ)
      → IsRobinHood cap l
      → j < cap
      → l j ≡ some hash
      → (n m i : ℕ) → m + n ≡ distance cap hash j
      → i ≡ (hash % cap + m) % cap
      → (g : ℕ) × (l i ≡ some g) × (m ≤ distance cap g i)
  way l hash j r b e zero m i s at =
      let same : i ≡ j =
        at
        ∙ ap (λ (t : ℕ). (hash % cap + t) % cap)
            (let z : m ≡ distance cap hash j = omega arith in z)
        ∙ sym (at-distance hash j b) in
      (hash, rw same e, rw same (omega arith))
  way l hash j r b e (suc n) m i s at =
      let inside : i < cap = rw at (mod-lt _ pos) in
      let (g, here, far) =
        way l hash j r b e n (m + 1) (next cap i) (omega arith) (at-next hash i m at) in
      let (f, there, step) = r.before i g inside here (omega arith) in (f, there, omega arith)

  module _ (l : Layout) (r : IsRobinHood cap l) (u : IsDistinct cap l) where
    -- A probe that meets a free slot, or one that is nearer home, has passed where the hash could be.
    pub absent :
        (hash i d : ℕ)
        → Probe cap l hash i d
        → d < cap
        → ((g : ℕ) → l i ≡ some g → distance cap g i < d)
        → (j : ℕ) → j < cap
        → l j ≢ some hash
    absent hash i d p b poor j c e =
        let far = p.ahead j c e in
        let (g, here, at-least) =
          way l hash j r c e (distance cap hash j - d) d i (omega arith) p.at in
        absurd (omega (arith, poor g here))

    -- Without a match and no nearer home, the probe goes on.
    pub go_on :
        (hash i d g : ℕ)
        → Probe cap l hash i d
        → d < cap
        → l i ≡ some g
        → g ≢ hash
        → d ≤ distance cap g i
        → Probe cap l hash (next cap i) (d + 1)
    go_on hash i d g p b here other far =
        let inside : i < cap = rw p.at (mod-lt _ pos) in
        record {
          at = at-next hash i d p.at;
          prior = λ q c e h.
              (let same : q ≡ i = next-injective q i c inside (sym e) in
                (g, rw same here, rw same (omega arith)));
          ahead = λ j c e. elim (ℕ_discrete (distance cap hash j) d) [
            | yes near ↦
                let same : j ≡ i =
                  at-distance hash j c ∙ ap (λ (t : ℕ). (hash % cap + t) % cap) near ∙ sym p.at in
                absurd (other (let f : some g ≡ some hash = sym here ∙ (rw same at e) in cc))
            | no farther ↦ let a = p.ahead j c e in omega arith
          ];
        }

    -- The hash is put where the probe stands, into a free slot or in place of one nearer home.
    module _ (hash i d : ℕ) (p : Probe cap l hash i d) (b : d < cap)
        (poor : (g : ℕ) → l i ≡ some g → distance cap g i < d) where
      inside : i < cap
      inside = rw p.at (mod-lt _ pos)

      here-distance : distance cap hash i ≡ d
      here-distance = distance-at hash i d b p.at

      only : (x g : ℕ) → x < cap → put l i hash x ≡ some g → g ≡ hash → i ≡ x
      only x g bx ex e = elim (ℕ_discrete i x) [
        | yes same ↦ same
        | no other ↦ absurd (
            absent hash i d p b poor x bx
              (let f : l x ≡ some g = rw (put_ne l i x hash other) at ex in rw (← e) f))
      ]

      put-same :
          (x y g : ℕ)
          → x < cap
          → y < cap
          → put l i hash x ≡ some g
          → put l i hash y ≡ some g
          → x ≡ y
      put-same x y g bx by ex ey = elim (ℕ_discrete g hash) [
        | yes mine ↦ sym (only x g bx ex mine) ∙ only y g by ey mine
        | no other ↦
            let old : (z : ℕ) → put l i hash z ≡ some g → l z ≡ some g = λ z e.
              elim (ℕ_discrete i z) [
                | yes same ↦ absurd (
                    other (
                      let f : some hash ≡ some g = sym (put_self l i hash) ∙ (rw (← same) at e) in
                      cc))
                | no away ↦ rw (put_ne l i z hash away) at e
              ] in
            u.same x y g bx by (old x ex) (old y ey)
      ]

      put-before :
          (x g : ℕ)
          → x < cap
          → put l i hash (next cap x) ≡ some g
          → 0 < distance cap g (next cap x)
          → (f : ℕ) × (put l i hash x ≡ some f)
            × (distance cap g (next cap x) ≤ distance cap f x + 1)
      put-before x g bx ex far = elim (ℕ_discrete i (next cap x)) [
        | yes here ↦
            let g-is : g ≡ hash =
              (let f : some hash ≡ some g = sym (put_self l i hash) ∙ (rw (← here) at ex) in cc) in
            let at-d : distance cap g (next cap x) ≡ d = rw (g-is, ← here) here-distance in
            elim (ℕ_discrete i x) [
              | yes self ↦
                  (hash, rw (← self) (put_self l i hash), omega (arith, rw self at here-distance))
              | no away ↦
                  let (f, there, step) = p.prior x bx here (omega arith) in
                  (f, rw (put_ne l i x hash away) there, omega arith)
            ]
        | no next-away ↦
            let (f, there, step) =
              r.before x g bx (rw (put_ne l i (next cap x) hash next-away) at ex) far in
            elim (ℕ_discrete i x) [
              | yes self ↦
                  let nearer : distance cap f x < d =
                    (let q = poor f (rw self there) in rw self at q) in
                  (hash, rw (← self) (put_self l i hash), omega (arith, rw self at here-distance))
              | no away ↦ (f, rw (put_ne l i x hash away) there, step)
            ]
      ]

      pub put-IsDistinct : IsDistinct cap (put l i hash)
      put-IsDistinct = record { same = put-same }

      pub put-IsRobinHood : IsRobinHood cap (put l i hash)
      put-IsRobinHood = record { before = put-before }

      -- The hash that gave way stands in no slot, and probes on from the next one.
      pub put-gone : (g : ℕ) → l i ≡ some g → g ≢ hash → (j : ℕ) → j < cap → put l i hash j ≢ some g
      put-gone g e other j c ej = elim (ℕ_discrete i j) [
        | yes same ↦
            other (let f : some g ≡ some hash = sym ej ∙ (rw (← same) (put_self l i hash)) in cc)
        | no away ↦ away (u.same i j g inside c e (rw (put_ne l i j hash away) at ej))
      ]

      pub put-Probe :
          (g : ℕ)
          → l i ≡ some g
          → g ≢ hash
          → Probe cap (put l i hash) g (next cap i) (distance cap g i + 1)
      put-Probe g e other = record {
        at = at-next g i (distance cap g i) (at-distance g i inside);
        prior = λ q c same h.
            (let back : q ≡ i = next-injective q i c inside (sym same) in
              (
                hash,
                rw back (put_self l i hash),
                rw back (omega (arith, poor g e, here-distance)),
              ));
        ahead = λ j c ej. absurd (put-gone g e other j c ej);
      }

-- A hash that is written again over itself changes nothing.
pub put-eq : (l : Layout) (i hash : ℕ) → l i ≡ some hash → put l i hash ≡ l
put-eq l i hash e = fun_ext (λ j. elim (ℕ_discrete i j) [
  | yes same ↦ rw (← same) (put_self l i hash ∙ sym e)
  | no away ↦ put_ne l i j hash away
])
