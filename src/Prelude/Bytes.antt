-- ===== src/Prelude/Bytes.antt =====
-- Byte slices as lists of numbers: `bytes.Compare`, and the little-endian uint32 of `encoding/binary`.
use Prim.Native.Nat.{ℕ, ◌+◌, ◌*◌, ◌/◌, ◌%◌, ◌^◌, ◌<◌, compare, Ordering}
use mathlib.Core.Path.{◌≡◌, refl, ap}
use mathlib.Core.Logic.{◌⊎◌, inl, inr}
use mathlib.Core.List.{List, [], ◌∷◌, ◌++◌}
use mathlib.Core.Option.{Option, none, some}
use native.Mathlib.Omega.{arith}
use baobab.Prelude.Lists.{length}

abbrev pub Bytes : Type 0
Bytes = List ℕ

-- The three answers of `bytes.Compare`: -1, 0 and 1.
pub data Cmp : Type 0 where
  less same greater : Cmp

abbrev pub cmp_ℕ : ℕ → ℕ → Cmp
cmp_ℕ a b = elim (compare a b) [ Ordering.lt ↦ less | Ordering.eq ↦ same | Ordering.gt ↦ greater ]

-- `bytes.Compare`: lexicographic, a proper prefix is less.
unfoldable pub compare_bytes : Bytes → Bytes → Cmp
compare_bytes [] [] = same
compare_bytes [] (b ∷ bs) = less
compare_bytes (a ∷ as') [] = greater
compare_bytes (a ∷ as') (b ∷ bs) =
    let rest = compare_bytes as' bs in
    elim (cmp_ℕ a b) [ less ↦ less | greater ↦ greater | same ↦ rest ]

infix 50 ◌≺◌
abbrev pub ◌≺◌ : Bytes → Bytes → Type 0
a ≺ b = compare_bytes a b ≡ less

pub compare_bytes_self : (a : Bytes) → compare_bytes a a ≡ same
unfolding compare_bytes
compare_bytes_self [] = refl
compare_bytes_self (x ∷ xs) = ground (arith, compare_bytes_self xs)

pub compare_bytes-same : (a b : Bytes) → compare_bytes a b ≡ same → a ≡ b
unfolding compare_bytes
compare_bytes-same [] [] h = refl
compare_bytes-same [] (b ∷ bs) h = cc
compare_bytes-same (a ∷ as') [] h = cc
compare_bytes-same (a ∷ as') (b ∷ bs) h = ground (arith, compare_bytes-same as' bs)

pub compare_bytes-greater : (a b : Bytes) → compare_bytes a b ≡ greater → b ≺ a
unfolding compare_bytes
compare_bytes-greater [] [] h = cc
compare_bytes-greater [] (b ∷ bs) h = cc
compare_bytes-greater (a ∷ as') [] h = refl
compare_bytes-greater (a ∷ as') (b ∷ bs) h = ground (arith, compare_bytes-greater as' bs)

pub ≺_flip : (a b : Bytes) → a ≺ b → compare_bytes b a ≡ greater
unfolding compare_bytes
≺_flip [] [] h = cc
≺_flip [] (b ∷ bs) h = refl
≺_flip (a ∷ as') [] h = cc
≺_flip (a ∷ as') (b ∷ bs) h = ground (arith, ≺_flip as' bs)

pub ≺_trans : (a b c : Bytes) → a ≺ b → b ≺ c → a ≺ c
unfolding compare_bytes
≺_trans [] [] c h k = cc
≺_trans [] (b ∷ bs) [] h k = cc
≺_trans [] (b ∷ bs) (c ∷ cs) h k = refl
≺_trans (a ∷ as') [] c h k = cc
≺_trans (a ∷ as') (b ∷ bs) [] h k = cc
≺_trans (a ∷ as') (b ∷ bs) (c ∷ cs) h k = ground (arith, ≺_trans as' bs cs)

pub Cmp-cases : (c : Cmp) → (c ≡ less) ⊎ ((c ≡ same) ⊎ (c ≡ greater))
Cmp-cases less = inl refl
Cmp-cases same = inr (inl refl)
Cmp-cases greater = inr (inr refl)

-- `binary.LittleEndian.PutUint32` and `Uint32`.
unfoldable pub le_u32 : ℕ → Bytes
le_u32 v = (v % 256) ∷ (v / 256 % 256) ∷ (v / 65536 % 256) ∷ (v / 16777216 % 256) ∷ []

-- `none` stands for the panic on a slice that is too short.
unfoldable pub u32_at : Bytes → Option ℕ
u32_at (a ∷ b ∷ c ∷ d ∷ rest) = some (a + b * 256 + c * 65536 + d * 16777216)
u32_at _ = none

pub u32_at-le_u32 : (v : ℕ) (rest : Bytes) → v < 2 ^ 32 → u32_at (le_u32 v ++ rest) ≡ some v
unfolding u32_at le_u32
u32_at-le_u32 v rest h = ap some (omega arith)

pub length-le_u32 : (v : ℕ) → length (le_u32 v) ≡ 4
unfolding le_u32
length-le_u32 v = refl
