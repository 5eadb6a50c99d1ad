-- ===== src/Prelude/Run.antt =====
-- How a run of Go code ends.
use mathlib.Core.Path.{◌≡◌, refl}
use mathlib.Core.Logic.{◌⊎◌, inl, inr}
use mathlib.Core.List.{List}
use mathlib.Core.Option.{none, some}
use Prim.Native.Nat.{ℕ}
use baobab.Prelude.Lists.{length, get_elem?, drop}
use baobab.Prelude.Tests.{leb, if◌then◌else◌}

-- With a value, by a panic, or without a result because the fuel of the model ran out.
pub data Run {ℓ} (A : Type ℓ) : Type ℓ where
  done : A → Run A
  panics : Run A
  stuck : Run A

infixl 5 ◌>>=◌
abbrev pub ◌>>=◌ {ℓ κ} : {A : Type ℓ} {B : Type κ} → Run A → (A → Run B) → Run B
done a >>= f = f a
panics >>= f = panics
stuck >>= f = stuck

-- `xs[i]`, which panics out of range.
abbrev pub index {ℓ κ} : {A : Type ℓ} {B : Type κ} → List A → ℕ → (A → Run B) → Run B
index xs i k = elim (get_elem? xs i) [ none ↦ panics | some x ↦ k x ]

-- `xs[i:]`, which panics past the end.
abbrev pub slice_from {ℓ κ} : {A : Type ℓ} {B : Type κ} → List A → ℕ → (List A → Run B) → Run B
slice_from xs i k = if leb i (length xs) then k (drop i xs) else panics

pub done-injective {ℓ} : {A : Type ℓ} {a b : A} → done a ≡ done b → a ≡ b
done-injective h = cc

-- A run has a value, or nothing can follow it.
pub Run-cases {ℓ} :
    {A : Type ℓ} (r : Run A)
    → ((a : A) × (r ≡ done a)) ⊎ ((b : A) (k : A → Run A) → ¬ ((r >>= k) ≡ done b))
Run-cases (done a) = inl (a, refl)
Run-cases panics = inr (λ b k h. cc)
Run-cases stuck = inr (λ b k h. cc)
