-- ===== src/Buffer/Clock/Victim.antt =====
-- What an eviction returns, and what it leaves of the other entries.
use baobab.Prelude.{
  ℕ, zero, suc, ◌<◌, ◌≡◌, refl, arith, ◌⊎◌, inl, inr, true, false, some, List, [], ◌∷◌, length,
  get_elem?, set,
}
use baobab.Prelude.Run.{done}
use baobab.Buffer.Entry.{Segment, Entry, pinned}
use baobab.Buffer.Clock.{Clock, Probe, skip, pick, probe, advance, sweep}

-- An entry that the hand may take for the segment, at the latest when it comes by again.
pub record IsEligible (seg : Segment) (e : Entry) : Type 0 where
  pub not_reserved : e.reserved ≡ false
  pub not_held : e.acc ≡ false
  pub not_marked : e.marked_for_eviction ≡ false
  pub in_segment : e.segtype ≡ seg

-- The entry as the evicting thread receives it: pinned and marked.
abbrev pub taken : Entry → Entry
taken e = record (pinned e) { marked_for_eviction = true }

-- An entry that the hand left behind: unchanged, or without its reference bit.
abbrev pub LeftBehind : Entry → Entry → Type 0
LeftBehind e e' = (e' ≡ e) ⊎ (e' ≡ record e { ref = false })

abbrev pub AllLeftBehind : List Entry → List Entry → Type 0
AllLeftBehind [] [] = Unit
AllLeftBehind (x ∷ xs) [] = ⊥
AllLeftBehind [] (y ∷ ys) = ⊥
AllLeftBehind (x ∷ xs) (y ∷ ys) = LeftBehind x y × AllLeftBehind xs ys

pub record IsClock (clk : Clock) : Type 0 where
  pub sized : length clk.b_pool ≡ clk.capacity
  pub in_range : clk.head < clk.capacity

pub AllLeftBehind-refl : (xs : List Entry) → AllLeftBehind xs xs
AllLeftBehind-refl [] = tt
AllLeftBehind-refl (x ∷ xs) = (inl refl, AllLeftBehind-refl xs)

LeftBehind-trans : (a b c : Entry) → LeftBehind a b → LeftBehind b c → LeftBehind a c
LeftBehind-trans a b c h k = ground arith

pub AllLeftBehind-trans :
    (xs ys zs : List Entry) → AllLeftBehind xs ys → AllLeftBehind ys zs → AllLeftBehind xs zs
AllLeftBehind-trans [] [] [] h k = tt
AllLeftBehind-trans [] [] (z ∷ zs) h k = k
AllLeftBehind-trans [] (y ∷ ys) zs h k = absurd h
AllLeftBehind-trans (x ∷ xs) [] zs h k = absurd h
AllLeftBehind-trans (x ∷ xs) (y ∷ ys) [] h k = k
AllLeftBehind-trans (x ∷ xs) (y ∷ ys) (z ∷ zs) h k =
    (LeftBehind-trans x y z h.0 k.0, AllLeftBehind-trans xs ys zs h.1 k.1)

pub AllLeftBehind-set :
    (xs : List Entry) (i : ℕ) {e : Entry} (e' : Entry)
    → get_elem? xs i ≡ some e
    → LeftBehind e e'
    → AllLeftBehind xs (set xs i e')
AllLeftBehind-set [] i e' h k = tt
AllLeftBehind-set (x ∷ xs) zero e' h k = (ground arith, AllLeftBehind-refl xs)
AllLeftBehind-set (x ∷ xs) (suc i) e' h k = (inl refl, AllLeftBehind-set xs i e' h k)

-- The hand takes only what is eligible, and else leaves the entry behind.
pub probe-pick :
    (seg : Segment) (e e' : Entry) → probe seg e ≡ pick e' → IsEligible seg e × (e' ≡ taken e)
unfolding probe
probe-pick seg e e' h = ground arith

pub probe-skip : (seg : Segment) (e e' : Entry) → probe seg e ≡ skip e' → LeftBehind e e'
unfolding probe
probe-skip seg e e' h = ground arith

pub Probe-cases : (p : Probe) → ((e : Entry) × (p ≡ skip e)) ⊎ ((e : Entry) × (p ≡ pick e))
Probe-cases (skip e) = inl (e, refl)
Probe-cases (pick e) = inr (e, refl)

module _ (n : ℕ) (seg : Segment) (clk : Clock) {e e' : Entry}
    (read : get_elem? clk.b_pool clk.head ≡ some e) where
  pub sweep_skip : probe seg e ≡ skip e' → sweep (suc n) seg clk ≡ sweep n seg (advance clk e')
  unfolding sweep
  sweep_skip h = ground (arith, read)

  pub sweep_pick :
      probe seg e ≡ pick e' → sweep (suc n) seg clk ≡ done (some clk.head, advance clk e')
  unfolding sweep
  sweep_pick h = ground (arith, read)
