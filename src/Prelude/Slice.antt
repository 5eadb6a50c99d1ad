-- ===== src/Prelude/Slice.antt =====
-- Writing bytes into a buffer at an offset, and reading them back.
use Prim.Native.Nat.{ℕ, zero, suc, ◌+◌, ◌-◌, ◌≤◌}
use mathlib.Core.Path.{◌≡◌, refl, sym, ap, ◌∙◌}
use mathlib.Core.List.{[], ◌∷◌, ◌++◌}
use mathlib.Core.Logic.{◌⊎◌, inl, inr}
use native.Mathlib.Omega.{arith}
use baobab.Prelude.Lists.{
  length, take, drop, length-take, length-drop, length-append, take-append, drop-append,
}
use baobab.Prelude.Bytes.{Bytes}

-- `copy(buf[off:], bytes)`, where the bytes fit.
unfoldable pub write_at : Bytes → ℕ → Bytes → Bytes
write_at buf off bytes = take off buf ++ (bytes ++ drop (off + length bytes) buf)

-- `buf[off:off+width]`.
unfoldable pub read_at : Bytes → ℕ → ℕ → Bytes
read_at buf off width = take width (drop off buf)

drop_nil : (k : ℕ) → drop {A = ℕ} k [] ≡ []
drop_nil zero = refl
drop_nil (suc k) = refl

drop-drop : (a b c : ℕ) (xs : Bytes) → b + a ≡ c → drop a (drop b xs) ≡ drop c xs
drop-drop a zero c xs h = ap (λ k. drop k xs) {x = a} (omega arith)
drop-drop a (suc b) c [] h = drop_nil a ∙ sym (drop_nil c)
drop-drop a (suc b) zero (x ∷ xs) h = absurd (omega arith)
drop-drop a (suc b) (suc c) (x ∷ xs) h = drop-drop a b c xs (omega arith)

drop_past : (xs ys : Bytes) (k : ℕ) → length xs ≤ k → drop k (xs ++ ys) ≡ drop (k - length xs) ys
drop_past [] ys k h = ap (λ j. drop j ys) (omega arith)
drop_past (x ∷ xs) ys zero h = absurd (omega arith)
drop_past (x ∷ xs) ys (suc k) h =
    drop_past xs ys k (omega arith) ∙ ap (λ j. drop j ys) (omega arith)

-- What is read before the end of a prefix does not depend on what follows it.
read_before :
    (off width n : ℕ) (xs ys : Bytes)
    → off + width ≤ n
    → n ≤ length xs
    → take width (drop off (take n xs ++ ys)) ≡ take width (drop off xs)
read_before zero zero n xs ys h k = refl
read_before zero (suc w) zero xs ys h k = absurd (omega arith)
read_before zero (suc w) (suc n) [] ys h k = absurd (omega arith)
read_before zero (suc w) (suc n) (x ∷ xs) ys h k =
    ap (λ l. x ∷ l) (read_before zero w n xs ys (omega arith) (omega arith))
read_before (suc off) w zero xs ys h k = absurd (omega arith)
read_before (suc off) w (suc n) [] ys h k = absurd (omega arith)
read_before (suc off) w (suc n) (x ∷ xs) ys h k =
    read_before off w n xs ys (omega arith) (omega arith)

module _ (buf : Bytes) (off : ℕ) (bytes : Bytes) (fits : off + length bytes ≤ length buf) where
  prefix : length (take off buf) ≡ off
  prefix = omega (arith, length-take off buf)

  pub length-write_at : length (write_at buf off bytes) ≡ length buf
  unfolding write_at
  length-write_at = omega (
    arith,
    prefix,
    length-append (take off buf) (bytes ++ drop (off + length bytes) buf),
    length-append bytes (drop (off + length bytes) buf),
    length-drop (off + length bytes) buf,
  )

  pub read_at-write_at : read_at (write_at buf off bytes) off (length bytes) ≡ bytes
  unfolding read_at write_at
  read_at-write_at =
      ap (take (length bytes)) (drop-append (take off buf) _ off prefix)
      ∙ take-append bytes _ (length bytes) refl

  pub read_at-write_at_apart :
      (off' width : ℕ)
      → (off' + width ≤ off) ⊎ (off + length bytes ≤ off')
      → read_at (write_at buf off bytes) off' width ≡ read_at buf off' width
  unfolding read_at write_at
  read_at-write_at_apart off' width (inl before) =
      read_before off' width off buf _ before (omega arith)
  read_at-write_at_apart off' width (inr after) = ap (take width) (
      drop_past (take off buf) _ off' (omega (arith, prefix))
      ∙ drop_past bytes _ (off' - length (take off buf)) (omega (arith, prefix))
      ∙ drop-drop (off' - length (take off buf) - length bytes) (off + length bytes) off' buf
          (omega (arith, prefix)))
