-- ===== src/Helpers/Flags/Bits.antt =====
-- The bits of a byte after a flag is set or cleared. Each law is a table over all bytes.
use baobab.Prelude.{
  ℕ, zero, suc, ◌<◌, ◌≡◌, refl, arith, ◌==◌, ◌&&◌, ◌||◌, not, Bool, true, false, [], ◌∷◌,
}
use baobab.Helpers.Flags.{bit_is_set, set_flag, unset_flag}

-- The test holds of all numbers under the bound, the largest one tested last.
passes : (ℕ → Bool) → ℕ → Bool
passes test zero = true
passes test (suc bound) = passes test bound && test bound

passes-at : (test : ℕ → Bool) (bound k : ℕ) → k < bound → passes test bound ≡ true → test k ≡ true
unfolding passes
passes-at test zero k small all = absurd (omega arith)
passes-at test (suc bound) k small all = ground (arith, passes-at test bound k)

abbrev same_bit : Bool → Bool → Bool
same_bit true b = b
same_bit false b = not b

same_bit→eq : (a b : Bool) → same_bit a b ≡ true → a ≡ b
same_bit→eq true b h = ground arith
same_bit→eq false b h = ground arith

abbrev set_law : ℕ → ℕ → ℕ → Bool
set_law f p q = same_bit (bit_is_set (set_flag f (p ∷ [])) q) (p == q || bit_is_set f q)

abbrev unset_law : ℕ → ℕ → ℕ → Bool
unset_law f p q = same_bit (bit_is_set (unset_flag f (p ∷ [])) q) (not (p == q) && bit_is_set f q)

abbrev for_all_bits : (ℕ → ℕ → ℕ → Bool) → Bool
for_all_bits law = passes (λ p. passes (λ q. passes (λ f. law f p q) 256) 8) 8

set_table : for_all_bits set_law ≡ true
unfolding passes bit_is_set set_flag
set_table = refl

unset_table : for_all_bits unset_law ≡ true
unfolding passes bit_is_set unset_flag
unset_table = refl

from_table :
    (law : ℕ → ℕ → ℕ → Bool)
    → for_all_bits law ≡ true
    → (f p q : ℕ) → f < 256
    → p < 8
    → q < 8
    → law f p q ≡ true
from_table law table f p q hf hp hq =
    passes-at _ 256 f hf (passes-at _ 8 q hq (passes-at _ 8 p hp table))

-- After `SetFlag` of one position, exactly that bit and the bits set before are set.
pub bit_is_set-set_flag :
    (f p q : ℕ)
    → f < 256
    → p < 8
    → q < 8
    → bit_is_set (set_flag f (p ∷ [])) q ≡ (p == q || bit_is_set f q)
bit_is_set-set_flag f p q hf hp hq = same_bit→eq _ _ (from_table set_law set_table f p q hf hp hq)

-- After `UnsetFlag` of one position, exactly the other bits that were set are set.
pub bit_is_set-unset_flag :
    (f p q : ℕ)
    → f < 256
    → p < 8
    → q < 8
    → bit_is_set (unset_flag f (p ∷ [])) q ≡ (not (p == q) && bit_is_set f q)
bit_is_set-unset_flag f p q hf hp hq =
    same_bit→eq _ _ (from_table unset_law unset_table f p q hf hp hq)
