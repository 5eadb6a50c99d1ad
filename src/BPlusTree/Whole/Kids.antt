-- ===== src/BPlusTree/Whole/Kids.antt =====
-- Children joined and cut at a separator, and the child that a key leads to.
use baobab.Prelude.{
  ℕ, suc, ◌≡◌, refl, sym, ap, ◌∙◌, arith, none, some, List, [], ◌∷◌, ◌++◌, append_assoc, length,
}
use baobab.Prelude.Bytes.{Bytes, ◌≺◌, ≺_trans, compare_bytes-same}
use baobab.BPlusTree.Whole.Tree.{Map, Bound, Past, Under, choose, Joins, Shape, Kids}

-- Maps that agree on every key are equal.
pub same_map : {m n : Map} → ((j : Bytes) → m j ≡ n j) → m ≡ n
same_map h = λ i j. h j i

not_less_trans : (j k l : Bytes) → k ≺ l → ¬ (j ≺ l) → ¬ (j ≺ k)
not_less_trans j k l h not_j less_k = not_j (≺_trans j k l less_k h)

pub choose-below : (k : Bytes) (ml mr : Map) (j : Bytes) → j ≺ k → choose k ml mr j ≡ ml j
choose-below k ml mr j h = ground (arith, h)

pub choose-from : (k : Bytes) (ml mr : Map) (j : Bytes) → ¬ (j ≺ k) → choose k ml mr j ≡ mr j
choose-from k ml mr j h = ground (arith, h)

choose_assoc :
    (k l : Bytes) (a b d : Map) → k ≺ l → choose l (choose k a b) d ≡ choose k a (choose l b d)
choose_assoc k l a b d h =
    same_map λ j. ground (arith, ≺_trans j k l, compare_bytes-same j k, compare_bytes-same j l)

Under-trans : (hi : Bound) (k l : Bytes) → k ≺ l → Under hi l → Under hi k
Under-trans none k l h u = tt
Under-trans (some x) k l h u = ≺_trans k l x h u

-- Children on either side of a separator.
pub Kids-join :
    (P : Shape) (lo hi : Bound) (k : Bytes) (ks : List Bytes) (cs : List ℕ) (ls : List Bytes)
    (ds : List ℕ) (m n : Map) (ids is : List ℕ)
    → Kids P lo (some k) ks cs m ids
    → Kids P (some k) hi ls ds n is
    → Past lo k
    → Under hi k
    → Kids P lo hi (ks ++ (k ∷ ls)) (cs ++ ds) (choose k m n) (ids ++ is)
unfolding Kids
Kids-join P lo hi k [] [] ls ds m n ids is t u p q = elim t [ ]
Kids-join P lo hi k [] (c ∷ []) ls ds m n ids is t u p q = record {
  left_map = m;
  right_map = n;
  left_ids = ids;
  right_ids = is;
  left = t;
  right = u;
  past = p;
  under = q;
  joined = refl;
  both_ids = refl;
}
Kids-join P lo hi k [] (c ∷ d ∷ cs) ls ds m n ids is t u p q = elim t [ ]
Kids-join P lo hi k (x ∷ ks) [] ls ds m n ids is t u p q = elim t [ ]
Kids-join P lo hi k (x ∷ ks) (c ∷ cs) ls ds m n ids is t u p q = record {
  left_map = t.left_map;
  right_map = choose k t.right_map n;
  left_ids = t.left_ids;
  right_ids = t.right_ids ++ is;
  left = t.left;
  right = Kids-join P (some x) hi k ks cs ls ds t.right_map n t.right_ids is t.right u t.under q;
  past = t.past;
  under = Under-trans hi x k t.under q;
  joined = ap (λ a. choose k a n) t.joined ∙ choose_assoc x k t.left_map t.right_map n t.under;
  both_ids = ap (λ l. l ++ is) t.both_ids ∙ append_assoc t.left_ids t.right_ids is;
}

-- And apart again.
pub Kids-cut :
    (P : Shape) (lo hi : Bound) (k : Bytes) (ks : List Bytes) (cs : List ℕ) (ls : List Bytes)
    (ds : List ℕ) (m : Map) (ids : List ℕ)
    → length cs ≡ suc (length ks)
    → Kids P lo hi (ks ++ (k ∷ ls)) (cs ++ ds) m ids
    → Joins (Kids P lo (some k) ks cs) (Kids P (some k) hi ls ds) lo hi k m ids
unfolding Kids
Kids-cut P lo hi k [] [] ls ds m ids h t = absurd (omega arith)
Kids-cut P lo hi k [] (c ∷ []) ls ds m ids h t = record {
  left_map = t.left_map;
  right_map = t.right_map;
  left_ids = t.left_ids;
  right_ids = t.right_ids;
  left = t.left;
  right = t.right;
  past = t.past;
  under = t.under;
  joined = t.joined;
  both_ids = t.both_ids;
}
Kids-cut P lo hi k [] (c ∷ d ∷ cs) ls ds m ids h t = absurd (omega arith)
Kids-cut P lo hi k (x ∷ ks) [] ls ds m ids h t = absurd (omega arith)
Kids-cut P lo hi k (x ∷ ks) (c ∷ cs) ls ds m ids h t =
    let r = Kids-cut P (some x) hi k ks cs ls ds t.right_map t.right_ids (omega arith) t.right in
    record {
      left_map = choose x t.left_map r.left_map;
      right_map = r.right_map;
      left_ids = t.left_ids ++ r.left_ids;
      right_ids = r.right_ids;
      left = record {
        left_map = t.left_map;
        right_map = r.left_map;
        left_ids = t.left_ids;
        right_ids = r.left_ids;
        left = t.left;
        right = r.left;
        past = t.past;
        under = r.past;
        joined = refl;
        both_ids = refl;
      };
      right = r.right;
      past = Past-trans lo x k t.past r.past;
      under = r.under;
      joined =
          t.joined
          ∙ ap (λ a. choose x t.left_map a) r.joined
          ∙ sym (choose_assoc x k t.left_map r.left_map r.right_map r.past);
      both_ids =
          t.both_ids
          ∙ ap (λ l. t.left_ids ++ l) r.both_ids
          ∙ sym (append_assoc t.left_ids r.left_ids r.right_ids);
    }
  where
    Past-trans : (lo : Bound) (x k : Bytes) → Past lo x → x ≺ k → Past lo k
    Past-trans none x k p h = tt
    Past-trans (some l) x k p h = ≺_trans l x k p h
