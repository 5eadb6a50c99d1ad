-- ===== src/BPlusTree/Whole/Spot.antt =====
-- The child that a key leads to: what it is for the key, and what may take its place.
use baobab.Prelude.{
  ℕ, zero, suc, ◌+◌, ◌≤◌, ◌≡◌, refl, sym, ap, subst, ◌∙◌, arith, ◌⊎◌, inl, inr, some, List, [], ◌∷◌,
  ◌++◌, append-nil, get_elem?, take, drop,
}
use baobab.Prelude.Bytes.{Bytes, ◌≺◌, ≺_flip, compare_bytes-same, compare_bytes_self}
use baobab.Prelude.Sorted.{Above}
use baobab.Pager.Ids.Fresh.{times, times-append}
use baobab.BPlusTree.Cache.Writes.{some-injective}
use baobab.BPlusTree.Leaf.Entries.{bind}
use baobab.BPlusTree.Search.Follow.{AtMost}
use baobab.BPlusTree.Whole.Tree.{
  Map, Bound, NotUnder, Under, choose, Shape, Kids, Kids-impl, times-left, times-right,
}
use baobab.BPlusTree.Whole.Kids.{same_map, Kids-join, choose-below, choose-from}

-- What carries over from one predicate to another on the pages of `ids`.
abbrev pub Transfer : Shape → Shape → List ℕ → Type 0
Transfer P Q ids =
    (l h : Bound) (c : ℕ) (n : Map) (is : List ℕ)
    → ((a : ℕ) → times a is ≤ times a ids)
    → P l h c n is
    → Q l h c n is

pub record Spot (P : Shape) (lo hi : Bound) (ks : List Bytes) (cs : List ℕ) (m : Map) (ids : List ℕ)
    (key : Bytes) (i child : ℕ) : Type 1 where
  pub low : Bound
  pub high : Bound
  pub map : Map
  pub own : List ℕ
  pub rest : List ℕ
  pub tree : P low high child map own
  pub from : NotUnder low key
  pub below : Under high key
  pub same_at : m key ≡ map key
  pub counted : (a : ℕ) → times a ids ≡ times a own + times a rest
  -- Children that bind the key in the child's place bind it in the whole.
  pub refill :
      (Q : Shape) (val : Bytes) (ls : List Bytes) (ds : List ℕ) (own' : List ℕ)
      → Transfer P Q rest
      → Kids Q low high ls ds (bind key val map) own'
      → (ids' : List ℕ) × Kids Q lo hi
          (take i ks ++ (ls ++ drop i ks))
          (take i cs ++ (ds ++ drop (suc i) cs))
          (bind key val m)
          ids'
        × ((a : ℕ) → times a ids' ≡ times a own' + times a rest)

bind-choose_left :
    (key val k : Bytes) (ml mr : Map)
    → key ≺ k
    → choose k (bind key val ml) mr ≡ bind key val (choose k ml mr)
bind-choose_left key val k ml mr h = same_map λ j. ground (arith, h, compare_bytes-same j key)

bind-choose_right :
    (key val k : Bytes) (ml mr : Map)
    → ¬ (key ≺ k)
    → choose k ml (bind key val mr) ≡ bind key val (choose k ml mr)
bind-choose_right key val k ml mr h = same_map λ j. ground (arith, h, compare_bytes-same j key)

pub not_under : (k key : Bytes) → (k ≺ key) ⊎ (k ≡ key) → ¬ (key ≺ k)
not_under k key (inl c) h = cc (≺_flip k key c)
not_under k key (inr e) h = cc (compare_bytes_self key)

pub Kids-Spot :
    (P : Shape) (lo hi : Bound) (ks : List Bytes) (cs : List ℕ) (m : Map) (ids : List ℕ)
    (key : Bytes) (i child : ℕ)
    → Kids P lo hi ks cs m ids
    → NotUnder lo key
    → Under hi key
    → get_elem? cs i ≡ some child
    → AtMost key (take i ks)
    → Above key (drop i ks)
    → Spot P lo hi ks cs m ids key i child
unfolding Kids
Kids-Spot P lo hi [] [] m ids key i child t f b read before after = elim t [ ]
Kids-Spot P lo hi [] (c ∷ d ∷ cs) m ids key i child t f b read before after = elim t [ ]
Kids-Spot P lo hi (k ∷ ks) [] m ids key i child t f b read before after = elim t [ ]
Kids-Spot P lo hi [] (c ∷ []) m ids key (suc i) child t f b read before after = cc
Kids-Spot P lo hi [] (c ∷ []) m ids key zero child t f b read before after = record {
  low = lo;
  high = hi;
  map = m;
  own = ids;
  rest = [];
  tree = subst (λ d. P lo hi d m ids) (some-injective read) t;
  from = f;
  below = b;
  same_at = refl;
  counted = λ a. omega arith;
  refill = λ Q val ls ds own' transfer u. (
    own',
    subst (λ l. Kids Q lo hi l (ds ++ []) (bind key val m) own') (sym (append-nil ls))
        (subst (λ l. Kids Q lo hi ls l (bind key val m) own') (sym (append-nil ds)) u),
    λ a. omega arith,
  );
}
Kids-Spot P lo hi (k ∷ ks) (c ∷ cs) m ids key zero child t f b read before after = record {
  low = lo;
  high = some k;
  map = t.left_map;
  own = t.left_ids;
  rest = t.right_ids;
  tree = subst (λ d. P lo (some k) d t.left_map t.left_ids) (some-injective read) t.left;
  from = f;
  below = after.0;
  same_at = ap (λ n. n key) t.joined ∙ choose-below k t.left_map t.right_map key after.0;
  counted = λ a. ap (times a) t.both_ids ∙ times-append a t.left_ids t.right_ids;
  refill = λ Q val ls ds own' transfer u. (
    own' ++ t.right_ids,
    subst (λ n. Kids Q lo hi (ls ++ (k ∷ ks)) (ds ++ cs) n (own' ++ t.right_ids))
        (bind-choose_left key val k t.left_map t.right_map after.0
          ∙ ap (bind key val) (sym t.joined))
        (Kids-join Q lo hi k ls ds ks cs _ _ own' t.right_ids u
          (Kids-impl P Q (some k) hi ks cs t.right_map t.right_ids transfer t.right) t.past
          t.under),
    λ a. times-append a own' t.right_ids,
  );
}
Kids-Spot P lo hi (k ∷ ks) (c ∷ cs) m ids key (suc i) child t f b read before after =
    let not_left = not_under k key before.0 in
    let s =
      Kids-Spot P (some k) hi ks cs t.right_map t.right_ids key i child t.right not_left b read
        before.1 after in
    record {
      low = s.low;
      high = s.high;
      map = s.map;
      own = s.own;
      rest = t.left_ids ++ s.rest;
      tree = s.tree;
      from = s.from;
      below = s.below;
      same_at =
          ap (λ n. n key) t.joined ∙ choose-from k t.left_map t.right_map key not_left ∙ s.same_at;
      counted = λ a. omega (
        arith,
        ap (times a) t.both_ids,
        times-append a t.left_ids t.right_ids,
        times-append a t.left_ids s.rest,
        s.counted a,
      );
      refill = λ Q val ls ds own' transfer u.
          let (ids', kids, count) =
            s.refill Q val ls ds own'
              (λ l h d n is part.
                transfer l h d n is (λ a. omega (arith, part a, times-right a t.left_ids s.rest)))
              u in
          let whole : Kids Q lo hi (k ∷ (take i ks ++ (ls ++ drop i ks)))
              (c ∷ (take i cs ++ (ds ++ drop (suc i) cs))) (bind key val m) (t.left_ids ++ ids') =
            record {
              left_map = t.left_map;
              right_map = bind key val t.right_map;
              left_ids = t.left_ids;
              right_ids = ids';
              left =
                  transfer lo (some k) c t.left_map t.left_ids (λ a. times-left a t.left_ids s.rest)
                    t.left;
              right = kids;
              past = t.past;
              under = t.under;
              joined =
                  ap (bind key val) t.joined
                  ∙ sym (bind-choose_right key val k t.left_map t.right_map not_left);
              both_ids = refl;
            } in
          (
            t.left_ids ++ ids',
            whole,
            λ a.
                omega (
                  arith,
                  times-append a t.left_ids ids',
                  times-append a t.left_ids s.rest,
                  count a,
                ),
          );
    }
