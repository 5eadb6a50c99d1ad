-- ===== src/BPlusTree/Whole/Settle.antt =====
-- A page over a child that has grown: the pages of both, and the children put in the child's place.
use baobab.Prelude.{
  ℕ, suc, ◌+◌, ◌≤◌, ◌<◌, ◌≡◌, ◌≢◌, sym, ap, subst, ◌∙◌, arith, ◌⊎◌, inl, inr, none, List, [], ◌∷◌,
  ◌++◌, take, drop,
}
use native.Mathlib.Decide.{dec_lt, ℕ_discrete}
use baobab.Prelude.Bytes.{Bytes}
use baobab.Pager.Ids.Fresh.{times, times-append}
use baobab.BPlusTree.Leaf.Entries.{bind}
use baobab.BPlusTree.Cache.{Cache, build_page}
use baobab.BPlusTree.Cache.Writes.{none-not_some}
use baobab.BPlusTree.Whole.Tree.{
  Map, Bound, Kids, Kids-impl, Tree, Tree-Kept, InnerPage, Sound, Kept,
}
use baobab.BPlusTree.Whole.Spot.{Spot, Transfer}
use baobab.BPlusTree.Whole.Steps.{Stored, SameContent-trans}
use baobab.BPlusTree.Whole.Grown.{Effect, Tree-Stored, stays-none}

at_most_one : (a b : ℕ) → times a (b ∷ []) ≤ 1
at_most_one a b = ground arith

not_at : (a b : ℕ) → a ≢ b → times a (b ∷ []) ≡ 0
not_at a b p = ground (arith, p)

module _ {S : Type 0} (c : Cache S) (height : ℕ) (s s₁ : S) (lo hi : Bound) (id : ℕ) (m : Map)
    (ids : List ℕ) (t : InnerPage c (Tree c height s) s lo hi id m ids) (key : Bytes) (i child : ℕ)
    (spot : Spot (Tree c height s) lo hi t.node.keys t.node.children m t.kid_ids key i child)
    (once : (a : ℕ) → times a ids ≤ 1) (own' : List ℕ) (e : Effect c s s₁ spot.own own') where
  pub counts : (a : ℕ) → times a ids ≡ times a (id ∷ []) + (times a spot.own + times a spot.rest)
  counts a = omega (arith, ap (times a) t.own_id, spot.counted a)

  pub id_once : times id (id ∷ []) ≡ 1
  id_once = ground arith

  whole_Stored : (a : ℕ) → 0 < times a ids → Stored c s a
  unfolding Tree
  whole_Stored a h = Tree-Stored c (suc height) s a lo hi id m ids t h

  pub own_apart : (a : ℕ) → 0 < times a own' → (a ≢ id) × (times a spot.rest ≡ 0)
  own_apart a h = elim (e.fresh a h) [
    | inl old ↦ (
      λ p. omega (arith, id_once, counts id, once id, subst (λ b. 0 < times b spot.own) p old),
      omega (arith, counts a, once a, old),
    )
    | inr new ↦ (
      λ p. none-not_some (sym new ∙ (ap (build_page c s) p ∙ t.stored)),
      elim (dec_lt 0 (times a spot.rest)) [
        | no q ↦ omega (arith, q)
        | yes q ↦
            let (n, there) = whole_Stored a (omega (arith, counts a, q)) in
            absurd (none-not_some (sym new ∙ there))
      ],
    )
  ]

  rest_apart : (a : ℕ) → 0 < times a spot.rest → (a ≢ id) × (times a spot.own ≡ 0)
  rest_apart a h = (
    λ p. omega (arith, id_once, counts id, once id, subst (λ b. 0 < times b spot.rest) p h),
    omega (arith, counts a, once a, h),
  )

  module _ (s₂ : S) (sound₂ : Sound c s₂) (kept₂ : (a : ℕ) → a ≢ id → Kept c s₁ s₂ a)
      (stays₂ : (a : ℕ) → Stored c s₁ a → Stored c s₂ a) where
    both_Kept : (a : ℕ) → a ≢ id → times a spot.own ≡ 0 → Kept c s s₂ a
    both_Kept a p q n h =
        let (n₁, there₁, same₁) = e.kept a q n h in
        let (n₂, there₂, same₂) = kept₂ a p n₁ there₁ in
        (n₂, there₂, SameContent-trans c n n₁ n₂ same₁ same₂)

    moves : Transfer (Tree c height s) (Tree c height s₂) spot.rest
    moves l h d n is part sub =
        Tree-Kept c height s s₂ l h d n is
          (λ a there. let (p, q) = rest_apart a (omega (arith, there, part a)) in both_Kept a p q)
          sub

    -- What took the child's place, among the other children.
    pub settle :
        (val : Bytes) (ls : List Bytes) (ds : List ℕ)
        → Kids (Tree c height s₁) spot.low spot.high ls ds (bind key val spot.map) own'
        → (kid_ids' : List ℕ) × Kids
            (Tree c height s₂)
            lo
            hi
            (take i t.node.keys ++ (ls ++ drop i t.node.keys))
            (take i t.node.children ++ (ds ++ drop (suc i) t.node.children))
            (bind key val m)
            kid_ids'
          × ((a : ℕ) → times a kid_ids' ≡ times a own' + times a spot.rest)
    settle val ls ds kids = spot.refill (Tree c height s₂) val ls ds own' moves (
        Kids-impl (Tree c height s₁) (Tree c height s₂) spot.low spot.high ls ds _ own'
          (λ l h d n is part sub.
            Tree-Kept c height s₁ s₂ l h d n is
              (λ a there. kept₂ a (own_apart a (omega (arith, there, part a))).0) sub)
          kids)

    fresh_below :
        (a : ℕ)
        → 0 < times a own' + times a spot.rest
        → (0 < times a ids) ⊎ (build_page c s a ≡ none)
    fresh_below a h = elim (dec_lt 0 (times a spot.rest)) [
      | yes p ↦ inl (omega (arith, counts a, p))
      | no p ↦ elim (e.fresh a (omega (arith, h, p))) [
        | inl old ↦ inl (omega (arith, counts a, old))
        | inr new ↦ inr new
      ]
    ]

    once_below : (a : ℕ) → times a (id ∷ []) + (times a own' + times a spot.rest) ≤ 1
    once_below a = elim (dec_lt 0 (times a own')) [
      | yes p ↦ let (q, r) = own_apart a p in omega (arith, not_at a id q, r, e.once a)
      | no p ↦ omega (arith, p, counts a, once a)
    ]

    outside : (a : ℕ) → times a ids ≡ 0 → Kept c s s₂ a
    outside a h =
        both_Kept a (λ p. omega (arith, counts id, id_once, subst (λ b. times b ids ≡ 0) p h))
          (omega (arith, counts a, h))

    -- The page itself stays one page.
    pub settled_Effect :
        (kid_ids' : List ℕ)
        → ((a : ℕ) → times a kid_ids' ≡ times a own' + times a spot.rest)
        → Effect c s s₂ ids (id ∷ kid_ids')
    settled_Effect kid_ids' count = record {
      sound = sound₂;
      kept = outside;
      stays = λ a h. stays₂ a (e.stays a h);
      fresh = λ a h. elim (ℕ_discrete a id) [
        | yes p ↦ inl (subst (λ b. 0 < times b ids) (sym p) (omega (arith, id_once, counts id)))
        | no p ↦ fresh_below a (omega (arith, h, not_at a id p, count a))
      ];
      once = λ a. omega (arith, count a, once_below a);
    }

    -- Or it becomes two, of which the second is new.
    pub parted_Effect :
        (new : ℕ) (left_ids right_ids : List ℕ)
        → build_page c s₁ new ≡ none
        → ((a : ℕ) → 0 < times a own' → Stored c s₁ a)
        → ((a : ℕ) → times a left_ids + times a right_ids ≡ times a own' + times a spot.rest)
        → Effect c s s₂ ids ((id ∷ left_ids) ++ (new ∷ right_ids))
    parted_Effect new left_ids right_ids fresh own_Stored count =
        let not_there : (a : ℕ) → Stored c s₁ a → a ≢ new =
          λ a there p. none-not_some (sym fresh ∙ (ap (build_page c s₁) (sym p) ∙ there.1)) in
        let at_id = not_there id (e.stays id (t.node, t.stored)) in
        let none_of : (l : List ℕ)
            → ((a : ℕ) → 0 < times a l → Stored c s₁ a)
            → (a : ℕ) → a ≡ new
            → times a l ≡ 0 =
          λ l there a q. elim (dec_lt 0 (times a l)) [
            | yes p ↦ absurd (not_there a (there a p) q)
            | no p ↦ omega (arith, p)
          ] in
        let rest_Stored : (a : ℕ) → 0 < times a spot.rest → Stored c s₁ a =
          λ a h. e.stays a (whole_Stored a (omega (arith, counts a, h))) in
        let total : (a : ℕ)
            → times a ((id ∷ left_ids) ++ (new ∷ right_ids))
              ≡ times a (id ∷ []) + (times a (new ∷ []) + (times a own' + times a spot.rest)) =
          λ a. omega (arith, times-append a (id ∷ left_ids) (new ∷ right_ids), count a) in
        record {
          sound = sound₂;
          kept = outside;
          stays = λ a h. stays₂ a (e.stays a h);
          fresh = λ a h. elim (ℕ_discrete a id) [
            | yes p ↦ inl (subst (λ b. 0 < times b ids) (sym p) (omega (arith, id_once, counts id)))
            | no p ↦ elim (ℕ_discrete a new) [
              | yes q ↦ inr (ap (build_page c s) q ∙ stays-none c s s₁ new e.stays fresh)
              | no q ↦ fresh_below a (omega (arith, h, total a, not_at a id p, not_at a new q))
            ]
          ];
          once = λ a. elim (ℕ_discrete a new) [
            | yes q ↦ omega (
              arith,
              total a,
              at_most_one a new,
              not_at a id (λ p. at_id (sym p ∙ q)),
              none_of own' own_Stored a q,
              none_of spot.rest rest_Stored a q,
            )
            | no q ↦ omega (arith, total a, not_at a new q, once_below a)
          ];
        }
