-- ===== src/Buffer/Clock/Finds.antt =====
-- The hand's way to an entry, over two rounds.
use baobab.Prelude.{
  ℕ, zero, suc, ◌+◌, ◌-◌, ◌*◌, ◌%◌, ◌≤◌, ◌<◌, ◌≡◌, ◌≢◌, refl, subst, ◌∙◌, arith, ◌⊎◌, inl, inr,
  true, false, Option, some, get_elem?, get_elem?_total, get_elem?_bound, get_elem?-set_self,
  get_elem?-set_ne, Bool-cases,
}
use baobab.Prelude.Run.{Run, done}
use baobab.Buffer.Entry.{
  Segment, Entry, seg_eq, unassigned, window_segment, probation_segment, protected_segment,
}
use baobab.Buffer.Clock.{
  Clock, skip, pick, probe, advance, sweep, evict_tries, evict_without_clearing, max_loop,
}
use baobab.Buffer.Clock.Victim.{IsEligible, taken, IsClock, Probe-cases, sweep_skip, sweep_pick}
use baobab.Buffer.Clock.Outcome.{turn_cases, advance-IsClock}

-- `d` steps of the hand lead from the head to position `j`.
abbrev pub Ahead : ℕ → ℕ → ℕ → ℕ → Type 0
Ahead cap head d j = (head + d ≡ j) ⊎ (head + d ≡ j + cap)

-- A run that returned an entry.
abbrev pub Found : Run (Option ℕ × Clock) → Type 0
Found r = (i : ℕ) × (clk' : Clock) × (r ≡ done (some i, clk'))

seg_eq_refl : (s : Segment) → seg_eq s s ≡ true
seg_eq_refl unassigned = refl
seg_eq_refl window_segment = refl
seg_eq_refl probation_segment = refl
seg_eq_refl protected_segment = refl

probe_ready :
    (seg : Segment) (e : Entry) → IsEligible seg e → e.ref ≡ false → probe seg e ≡ pick (taken e)
unfolding probe
probe_ready seg e ok r =
    ground (arith, ok.not_reserved, ok.not_held, ok.not_marked, ok.in_segment, seg_eq_refl seg)

probe_referenced :
    (seg : Segment) (e : Entry)
    → IsEligible seg e
    → e.ref ≡ true
    → probe seg e ≡ skip (record e { ref = false })
unfolding probe
probe_referenced seg e ok r =
    ground (arith, ok.not_reserved, ok.not_held, ok.not_marked, ok.in_segment, seg_eq_refl seg)

-- After a step the position is one step nearer.
nearer : (h cap d j : ℕ) → h < cap → j < cap → Ahead cap h (suc d) j → Ahead cap ((h + 1) % cap) d j
nearer h cap d j p q a = elim (turn_cases h cap p) [
  | inl t ↦ ground (arith, t.0, t.1)
  | inr t ↦ ground (arith, t.0, t.1)
]

-- One step of the hand, for what is elsewhere than under it.
module _ (seg : Segment) (clk : Clock) (c : IsClock clk) {j : ℕ} {e : Entry}
    (read : get_elem? clk.b_pool j ≡ some e) where
  step_elsewhere :
      (n : ℕ)
      → clk.head ≢ j
      → ((e' : Entry)
          → get_elem? (advance clk e').b_pool j ≡ some e
          → Found (sweep n seg (advance clk e')))
      → Found (sweep (suc n) seg clk)
  step_elsewhere n ne rest =
      let (x, at) = get_elem?_total clk.b_pool clk.head (omega (arith, c.sized, c.in_range)) in
      elim (Probe-cases (probe seg x)) [
        | inl (e', p) ↦
            let (i, clk', ran) = rest e' (get_elem?-set_ne clk.b_pool e' ne ∙ read) in
            (i, clk', sweep_skip n seg clk at p ∙ ran)
        | inr (e', p) ↦ (clk.head, advance clk e', sweep_pick n seg clk at p)
      ]

reaches_ready :
    (n d : ℕ) (seg : Segment) (clk : Clock) {j : ℕ} {e : Entry}
    → IsClock clk
    → get_elem? clk.b_pool j ≡ some e
    → IsEligible seg e
    → e.ref ≡ false
    → Ahead clk.capacity clk.head d j
    → d < n
    → d < clk.capacity
    → Found (sweep n seg clk)
reaches_ready zero d seg clk c read ok r a h q = absurd (omega arith)
reaches_ready (suc n) zero seg clk {j = j} {e = e} c read ok r a h q =
    let here : j ≡ clk.head =
      ground (arith, c.sized, c.in_range, get_elem?_bound clk.b_pool j read) in
    (
      clk.head,
      advance clk (taken e),
      sweep_pick n seg clk (subst (λ k. get_elem? clk.b_pool k ≡ some e) here read)
          (probe_ready seg e ok r),
    )
reaches_ready (suc n) (suc d) seg clk {j = j} c read ok r a h q =
    let lt = get_elem?_bound clk.b_pool j read in
    step_elsewhere seg clk c read n (ground (arith, c.sized, c.in_range)) (λ e' read'.
      reaches_ready n d seg (advance clk e') (advance-IsClock clk e' c) read' ok r
        (nearer clk.head clk.capacity d j c.in_range (omega (arith, c.sized, lt)) a) (omega arith)
        (omega arith))

-- A whole round, less the step just made.
round : (h cap : ℕ) → h < cap → Ahead cap ((h + 1) % cap) (cap - 1) h
round h cap p = elim (turn_cases h cap p) [
  | inl t ↦ ground (arith, t.0, t.1)
  | inr t ↦ ground (arith, t.0, t.1)
]

-- Two rounds: the first may only clear the reference bit.
reaches :
    (n d : ℕ) (seg : Segment) (clk : Clock) {j : ℕ} {e : Entry}
    → IsClock clk
    → get_elem? clk.b_pool j ≡ some e
    → IsEligible seg e
    → Ahead clk.capacity clk.head d j
    → d + clk.capacity < n
    → d < clk.capacity
    → Found (sweep n seg clk)
reaches zero d seg clk c read ok a h q = absurd (omega arith)
reaches (suc n) zero seg clk {j = j} {e = e} c read ok a h q =
    let here : j ≡ clk.head =
      ground (arith, c.sized, c.in_range, get_elem?_bound clk.b_pool j read) in
    let at = subst (λ k. get_elem? clk.b_pool k ≡ some e) here read in
    elim (Bool-cases e.ref) [
      | inr r ↦ (clk.head, advance clk (taken e), sweep_pick n seg clk at (probe_ready seg e ok r))
      | inl r ↦
          let e1 : Entry = record e { ref = false } in
          let (i, clk', ran) =
            reaches_ready n (clk.capacity - 1) seg (advance clk e1) (advance-IsClock clk e1 c)
              (get_elem?-set_self clk.b_pool clk.head e1 (omega (arith, c.sized, c.in_range)))
              (record {
                not_reserved = ok.not_reserved;
                not_held = ok.not_held;
                not_marked = ok.not_marked;
                in_segment = ok.in_segment;
              })
              refl (round clk.head clk.capacity c.in_range) (omega arith)
              (omega (arith, c.in_range)) in
          (i, clk', sweep_skip n seg clk at (probe_referenced seg e ok r) ∙ ran)
    ]
reaches (suc n) (suc d) seg clk {j = j} c read ok a h q =
    let lt = get_elem?_bound clk.b_pool j read in
    step_elsewhere seg clk c read n (ground (arith, c.sized, c.in_range)) (λ e' read'.
      reaches n d seg (advance clk e') (advance-IsClock clk e' c) read' ok
        (nearer clk.head clk.capacity d j c.in_range (omega (arith, c.sized, lt)) a) (omega arith)
        (omega arith))

distance : (cap h j : ℕ) → h < cap → j < cap → (d : ℕ) × (d < cap) × Ahead cap h d j
distance cap h j p q = elim (compare_cases h j) [
  | inl le ↦ (j - h, omega arith, inl (omega arith))
  | inr gt ↦ (j + cap - h, omega arith, inr (omega arith))
]
  where
    compare_cases : (a b : ℕ) → (a ≤ b) ⊎ (b < a)
    compare_cases a b = ground arith

-- When some entry of the clock is of the segment asked for and nobody holds it, marked it or reserved
-- it, an eviction returns an entry.
pub evict-Found :
    (seg : Segment) (clk : Clock) (j : ℕ) (e : Entry)
    → IsClock clk
    → get_elem? clk.b_pool j ≡ some e
    → IsEligible seg e
    → Found (evict_without_clearing seg clk)
unfolding evict_without_clearing evict_tries
evict-Found seg clk j e c read ok =
    let lt = get_elem?_bound clk.b_pool j read in
    let (d, near, a) = distance clk.capacity clk.head j c.in_range (omega (arith, c.sized, lt)) in
    let (i, clk', ran) =
      reaches (clk.capacity * max_loop) d seg clk c read ok a (omega arith) near in
    (i, clk', ground (arith, ran))
