-- ===== src/Buffer/Segments/Counted.antt =====
-- The counts of the segments are the numbers of their entries.
use baobab.Prelude.{
  ℕ, zero, suc, ◌+◌, ◌^◌, ◌≤◌, ◌<◌, ◌≡◌, refl, ap, subst, arith, inl, inr, if◌then◌else◌, some,
  List, [], ◌∷◌, length, set, get_elem?, All,
}
use baobab.BPlusTree.Cache.Writes.{some-injective}
use baobab.Buffer.Entry.{
  Segment, window_segment, probation_segment, protected_segment, seg_eq, Entry,
}
use baobab.Buffer.Entry.Pins.{PinsMatch}
use baobab.Buffer.Clock.Victim.{IsClock, LeftBehind, AllLeftBehind}
use baobab.Buffer.Segments.{WTinyLfu}

-- 1 for an entry of the segment, else 0.
abbrev pub one_in : Segment → Entry → ℕ
one_in seg e = if seg_eq e.segtype seg then 1 else 0

abbrev pub occupancy : Segment → List Entry → ℕ
occupancy seg [] = 0
occupancy seg (e ∷ es) = one_in seg e + occupancy seg es

pub occupancy-set :
    (seg : Segment) (xs : List Entry) (i : ℕ) (v : Entry) {e : Entry}
    → get_elem? xs i ≡ some e
    → occupancy seg (set xs i v) + one_in seg e ≡ occupancy seg xs + one_in seg v
occupancy-set seg [] i v h = cc
occupancy-set seg (x ∷ xs) zero v h = ground (arith, h)
occupancy-set seg (x ∷ xs) (suc i) v h = omega (arith, occupancy-set seg xs i v h)

pub occupancy-left :
    (seg : Segment) (xs ys : List Entry) → AllLeftBehind xs ys → occupancy seg ys ≡ occupancy seg xs
occupancy-left seg [] [] h = refl
occupancy-left seg [] (y ∷ ys) h = elim h [ ]
occupancy-left seg (x ∷ xs) [] h = elim h [ ]
occupancy-left seg (x ∷ xs) (y ∷ ys) (inl e, h) =
    omega (arith, ap (one_in seg) e, occupancy-left seg xs ys h)
occupancy-left seg (x ∷ xs) (y ∷ ys) (inr e, h) =
    omega (arith, ap (one_in seg) e, occupancy-left seg xs ys h)

pub All-set {ℓ} :
    (P : Entry → Type ℓ) (xs : List Entry) (i : ℕ) (v : Entry) → All P xs → P v → All P (set xs i v)
All-set P [] i v h p = tt
All-set P (x ∷ xs) zero v h p = (p, h.1)
All-set P (x ∷ xs) (suc i) v h p = (h.0, All-set P xs i v h.1 p)

pub All-get_elem? {ℓ} :
    (P : Entry → Type ℓ) (xs : List Entry) (i : ℕ) {e : Entry}
    → All P xs
    → get_elem? xs i ≡ some e
    → P e
All-get_elem? P [] i h r = cc
All-get_elem? P (x ∷ xs) zero {e} h r = subst P (some-injective r) h.0
All-get_elem? P (x ∷ xs) (suc i) h r = All-get_elem? P xs i h.1 r

-- Every pin counter can count one more.
abbrev pub Room : List Entry → Type 0
Room = All (λ e. e.pin_count + 1 < 2 ^ 64)

-- What an eviction leaves of an entry that it does not take.
pub left_at :
    (xs ys : List Entry) (i : ℕ) {x : Entry}
    → AllLeftBehind xs ys
    → get_elem? xs i ≡ some x
    → (y : Entry) × (get_elem? ys i ≡ some y) × LeftBehind x y
left_at [] ys i h r = cc
left_at (x ∷ xs) [] i h r = elim h [ ]
left_at (x ∷ xs) (y ∷ ys) zero h r = (y, refl, subst (λ z. LeftBehind z y) (some-injective r) h.0)
left_at (x ∷ xs) (y ∷ ys) (suc i) h r = left_at xs ys i h.1 r

-- And of those that it takes, what they were.
pub left_from :
    (xs ys : List Entry) (i : ℕ) {y : Entry}
    → AllLeftBehind xs ys
    → get_elem? ys i ≡ some y
    → (x : Entry) × (get_elem? xs i ≡ some x) × LeftBehind x y
left_from xs [] i h r = cc
left_from [] (y ∷ ys) i h r = elim h [ ]
left_from (x ∷ xs) (y ∷ ys) zero h r = (x, refl, subst (λ z. LeftBehind x z) (some-injective r) h.0)
left_from (x ∷ xs) (y ∷ ys) (suc i) h r = left_from xs ys i h.1 r

pub All-left :
    (P : Entry → Type 0)
    → ((x y : Entry) → LeftBehind x y → P x → P y)
    → (xs ys : List Entry) → AllLeftBehind xs ys
    → All P xs
    → All P ys
All-left P f [] [] h a = tt
All-left P f [] (y ∷ ys) h a = elim h [ ]
All-left P f (x ∷ xs) [] h a = elim h [ ]
All-left P f (x ∷ xs) (y ∷ ys) h a = (f x y h.0 a.0, All-left P f xs ys h.1 a.1)

pub occupancy-get_elem? :
    (seg : Segment) (xs : List Entry) (i : ℕ) {e : Entry}
    → get_elem? xs i ≡ some e
    → one_in seg e ≤ occupancy seg xs
occupancy-get_elem? seg [] i h = cc
occupancy-get_elem? seg (x ∷ xs) zero {e} h =
    omega (arith, ap (λ (z : Entry). one_in seg z) (some-injective h))
occupancy-get_elem? seg (x ∷ xs) (suc i) h = omega (arith, occupancy-get_elem? seg xs i h)

pub occupancy-le : (seg : Segment) (xs : List Entry) → occupancy seg xs ≤ length xs
occupancy-le seg [] = omega arith
occupancy-le seg (x ∷ xs) = ground (arith, occupancy-le seg xs)

-- A bound on the pool keeps the counts in their words.
pub record Counted (w : WTinyLfu) : Type 0 where
  pub clock : IsClock w.c_buffer
  pub pins : All PinsMatch w.c_buffer.b_pool
  pub small : w.c_buffer.capacity + 1 < 2 ^ 64
  pub window : w.window_count ≡ occupancy window_segment w.c_buffer.b_pool
  pub probation : w.probation_count ≡ occupancy probation_segment w.c_buffer.b_pool
  pub protected : w.protected_count ≡ occupancy protected_segment w.c_buffer.b_pool
  pub window_fits : w.window_count ≤ w.window_capacity
  pub probation_fits : w.probation_count ≤ w.probation_capacity
  pub protected_fits : w.protected_count ≤ w.protected_capacity
