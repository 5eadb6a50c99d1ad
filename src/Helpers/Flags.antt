-- ===== src/Helpers/Flags.antt =====
-- pkg/helpers/helpers.go: `BitIsSet`, `SetFlag` and `UnsetFlag` on one byte.
pub mod Bits
use baobab.Prelude.{ℕ, ◌-◌, ◌^◌, ◌%◌, ltb, Bool, List, [], ◌∷◌, bit_and, bit_or}

-- `1 << byte(pos)`, as a byte.
abbrev pub bit_at : ℕ → ℕ
bit_at pos = 2 ^ (pos % 256) % 256

unfoldable pub bit_is_set : ℕ → ℕ → Bool
bit_is_set flag pos = ltb 0 (bit_and flag (bit_at pos))

-- `for _, p := range pos { mask |= 1 << byte(p) }`
abbrev pub mask_of : ℕ → List ℕ → ℕ
mask_of mask [] = mask
mask_of mask (p ∷ pos) = mask_of (bit_or mask (bit_at p)) pos

unfoldable pub set_flag : ℕ → List ℕ → ℕ
set_flag f pos = bit_or f (mask_of 0 pos)

-- `^mask` of a byte is `255 - mask`.
unfoldable pub unset_flag : ℕ → List ℕ → ℕ
unset_flag f pos = bit_and f (255 - mask_of 0 pos)
