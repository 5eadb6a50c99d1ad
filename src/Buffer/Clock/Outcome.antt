-- ===== src/Buffer/Clock/Outcome.antt =====
-- How a sweep and an eviction end.
use baobab.Prelude.{
  ℕ, zero, suc, ◌+◌, ◌*◌, ◌%◌, ◌≤◌, ◌<◌, ◌≡◌, refl, ap, subst, ◌∙◌, arith, ◌⊎◌, inl, inr, Option,
  none, some, List, get_elem?, set, length-set, get_elem?_total, Option-cases,
}
use native.Mathlib.Nat.{mod-eq_of_lt, mod_self}
use baobab.Prelude.Run.{Run, done}
use baobab.Buffer.Entry.{Segment, Entry}
use baobab.Buffer.Clock.{
  Clock, probe, advance, sweep, evict_tries, evict_without_clearing, max_loop, max_retries,
}
use baobab.Buffer.Clock.Victim.{
  IsEligible, taken, AllLeftBehind, AllLeftBehind-refl, AllLeftBehind-trans, AllLeftBehind-set,
  IsClock, probe-pick, probe-skip, Probe-cases, sweep_skip, sweep_pick,
}

-- What the pool is after a hand that took an entry, or none.
abbrev pub Swept : Segment → List Entry → Option ℕ → List Entry → Type 0
Swept seg xs none ys = AllLeftBehind xs ys
Swept seg xs (some i) ys =
    (mid : List Entry) × (e : Entry) × AllLeftBehind xs mid
    × (get_elem? mid i ≡ some e)
    × IsEligible seg e
    × (ys ≡ set mid i (taken e))

-- A run from the clock ends with a clock, its pool as `Swept` says.
abbrev pub Ends : Segment → Clock → Run (Option ℕ × Clock) → Type 0
Ends seg clk r =
    (o : Option ℕ) × (clk' : Clock) × (r ≡ done (o, clk'))
    × IsClock clk'
    × (clk'.capacity ≡ clk.capacity)
    × Swept seg clk.b_pool o clk'.b_pool

pub turn_cases :
    (h cap : ℕ)
    → h < cap
    → ((h + 1 < cap) × ((h + 1) % cap ≡ h + 1)) ⊎ ((h + 1 ≡ cap) × ((h + 1) % cap ≡ 0))
turn_cases h cap p = elim (compare_cases (h + 1) cap) [
  | inl lt ↦ inl (lt, mod-eq_of_lt lt)
  | inr ge ↦
      let full : h + 1 ≡ cap = omega arith in
      inr (full, subst (λ c. (h + 1) % c ≡ 0) full (mod_self (h + 1)))
]
  where
    compare_cases : (a b : ℕ) → (a < b) ⊎ (b ≤ a)
    compare_cases a b = ground arith

pub advance-IsClock : (clk : Clock) (e : Entry) → IsClock clk → IsClock (advance clk e)
advance-IsClock clk e c = record {
  sized = omega (arith, c.sized, length-set clk.b_pool clk.head e);
  in_range = elim (turn_cases clk.head clk.capacity c.in_range) [
    | inl t ↦ omega (arith, t.0, t.1)
    | inr t ↦ omega (arith, t.0, t.1, c.in_range)
  ];
}

Swept-later :
    (seg : Segment) (xs ys : List Entry) (o : Option ℕ) (zs : List Entry)
    → AllLeftBehind xs ys
    → Swept seg ys o zs
    → Swept seg xs o zs
Swept-later seg xs ys none zs a s = AllLeftBehind-trans xs ys zs a s
Swept-later seg xs ys (some i) zs a s =
    let (mid, e, b, read, ok, eq) = s in (mid, e, AllLeftBehind-trans xs ys mid a b, read, ok, eq)

sweep-Ends : (n : ℕ) (seg : Segment) (clk : Clock) → IsClock clk → Ends seg clk (sweep n seg clk)
unfolding sweep
sweep-Ends zero seg clk c = (none, clk, refl, c, refl, AllLeftBehind-refl clk.b_pool)
sweep-Ends (suc n) seg clk c =
    let (e, read) = get_elem?_total clk.b_pool clk.head (omega (arith, c.sized, c.in_range)) in
    elim (Probe-cases (probe seg e)) [
      | inl (e', p) ↦
          let (o, clk', ran, c', cap, s) =
            sweep-Ends n seg (advance clk e') (advance-IsClock clk e' c) in
          (
            o,
            clk',
            (sweep_skip n seg clk read p ∙ ran),
            c',
            cap,
            Swept-later seg clk.b_pool (set clk.b_pool clk.head e') o clk'.b_pool
                (AllLeftBehind-set clk.b_pool clk.head e' read (probe-skip seg e e' p)) s,
          )
      | inr (e', p) ↦
          let (ok, eq) = probe-pick seg e e' p in
          (
            some clk.head,
            advance clk e',
            sweep_pick n seg clk read p,
            advance-IsClock clk e' c,
            refl,
            (
              clk.b_pool,
              e,
              AllLeftBehind-refl clk.b_pool,
              read,
              ok,
              ap (set clk.b_pool clk.head) eq,
            ),
          )
    ]

tries-Ends :
    (tries : ℕ) (seg : Segment) (clk : Clock)
    → IsClock clk
    → Ends seg clk (evict_tries tries seg clk)
unfolding evict_tries
tries-Ends zero seg clk c = (none, clk, refl, c, refl, AllLeftBehind-refl clk.b_pool)
tries-Ends (suc tries) seg clk c =
    let (o, clk', ran, c', cap, s) = sweep-Ends (clk.capacity * max_loop) seg clk c in
    elim (Option-cases o) [
      | inl nothing ↦
          let (o2, clk2, ran2, c2, cap2, s2) = tries-Ends tries seg clk' c' in
          let s' : AllLeftBehind clk.b_pool clk'.b_pool =
            subst (λ r. Swept seg clk.b_pool r clk'.b_pool) nothing s in
          (
            o2,
            clk2,
            ground (arith, ran, ran2),
            c2,
            omega (arith, cap, cap2),
            Swept-later seg clk.b_pool clk'.b_pool o2 clk2.b_pool s' s2,
          )
      | inr (i, found) ↦ (
        some i,
        clk',
        ground (arith, ran),
        c',
        cap,
        subst (λ r. Swept seg clk.b_pool r clk'.b_pool) found s,
      )
    ]

-- From a clock, an eviction never panics, and it either takes one entry, which nobody held, marked or
-- reserved and which was of the segment asked for, pins and marks it, or takes none; every other entry is
-- unchanged but for its reference bit, and the clock stays one.
pub evict-Ends :
    (seg : Segment) (clk : Clock) → IsClock clk → Ends seg clk (evict_without_clearing seg clk)
unfolding evict_without_clearing
evict-Ends seg clk c = tries-Ends max_retries seg clk c
