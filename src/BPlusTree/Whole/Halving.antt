-- ===== src/BPlusTree/Whole/Halving.antt =====
-- The writes of a split, of a leaf and of an internal node.
use baobab.Prelude.{
  ℕ, ◌<◌, ◌≡◌, ◌≢◌, refl, sym, ap, subst, ◌∙◌, arith, inl, inr, none, some, get_elem?, false,
}
use native.Mathlib.Decide.{dec_lt, ℕ_discrete}
use baobab.Prelude.Run.{done}
use baobab.Prelude.Bytes.{Bytes}
use baobab.Helpers.Lsn.{ok}
use baobab.BPlusTree.Node.{Node, Split, split}
use baobab.BPlusTree.Cache.{Cache, Keeps, build_page, sync}
use baobab.BPlusTree.Cache.Writes.{sync-Written, assign_frame-Created, none-not_some}
use baobab.BPlusTree.Insert.{old_right_sibling, sync_sibling, split_full_leaf}
use baobab.BPlusTree.Insert.Propagate.{split_full_internal}
use baobab.BPlusTree.Whole.Tree.{Sound}
use baobab.BPlusTree.Whole.Steps.{Rewritten, Touched}

-- The halves of a split as they are written.
abbrev pub left_half : Split → ℕ → Node
left_half h new = record h.left { right_sibling = new }

abbrev pub right_half : Split → Node → ℕ → Node
right_half h n new = record h.right {
  page_id = new;
  left_sibling = n.page_id;
  right_sibling = n.right_sibling;
}

module _ {S : Type 0} (c : Cache S) (k : Keeps c) (s : S) (n n₀ : Node) (lsn : Bytes) (h : Split)
    (sound : Sound c s) (splits : split n lsn ≡ done h)
    (stored : build_page c s n.page_id ≡ some n₀) (left_kind : n₀.leaf ≡ h.left.leaf)
    (same_right : n₀.right_sibling ≡ n.right_sibling) where
  at_none : (a b : ℕ) {m : Node} → build_page c s a ≡ some m → build_page c s b ≡ none → a ≢ b
  at_none a b e f p = none-not_some (sym f ∙ (ap (build_page c s) (sym p) ∙ e))

  leaf_no_sibling :
      (sep : Bytes)
      → get_elem? h.right.keys 0 ≡ some sep
      → n.right_sibling ≡ 0
      → (new : ℕ) × (s' : S) × (split_full_leaf c s n lsn
          ≡ done
              (ok (s', record { promoted_separator_key = sep; new_node_id = new; op_lsn = lsn })))
        × Rewritten c s s' n.page_id new (left_half h new) (right_half h n new)
  unfolding split_full_leaf old_right_sibling sync_sibling
  leaf_no_sibling sep first none_right =
      let (new, s₁, e₁, w₁) = assign_frame-Created c k s h.right lsn false in
      let apart = at_none n.page_id new stored w₁.fresh in
      let (n₁, made, kind) = w₁.made in
      let (s₂, e₂, w₂) = sync-Written c k s₁ new lsn (right_half h n new) made kind in
      let (s₃, e₃, w₃) =
        sync-Written c k s₂ n.page_id lsn (left_half h new)
          (w₂.elsewhere n.page_id apart ∙ (w₁.elsewhere n.page_id apart ∙ stored)) left_kind in
      (
        new,
        s₃,
        ground (arith, splits, e₁, first, none_right, e₂, e₃),
        record {
          positive = w₁.positive;
          fresh = w₁.fresh;
          left_here = w₃.here;
          right_here = w₃.elsewhere new (λ p. apart (sym p)) ∙ w₂.here;
          others = λ a p q. inl (w₃.elsewhere a p ∙ (w₂.elsewhere a q ∙ w₁.elsewhere a q));
        },
      )

  leaf_sibling :
      (sep : Bytes) (o : Node)
      → get_elem? h.right.keys 0 ≡ some sep
      → 0 < n.right_sibling
      → build_page c s n.right_sibling ≡ some o
      → (new : ℕ) × (s' : S) × (split_full_leaf c s n lsn
          ≡ done
              (ok (s', record { promoted_separator_key = sep; new_node_id = new; op_lsn = lsn })))
        × Rewritten c s s' n.page_id new (left_half h new) (right_half h n new)
  unfolding split_full_leaf old_right_sibling sync_sibling
  leaf_sibling sep o first some_right old =
      let (new, s₁, e₁, w₁) = assign_frame-Created c k s h.right lsn false in
      let apart = at_none n.page_id new stored w₁.fresh in
      let old_apart = at_none n.right_sibling new old w₁.fresh in
      let not_own : n.right_sibling ≢ n.page_id =
        λ e. (sound n.page_id n₀ stored).right_apart (same_right ∙ e) in
      let (n₁, made, kind) = w₁.made in
      let old₁ = w₁.elsewhere n.right_sibling old_apart ∙ old in
      let (s₂, e₂, w₂) = sync-Written c k s₁ new lsn (right_half h n new) made kind in
      let (s₃, e₃, w₃) =
        sync-Written c k s₂ n.page_id lsn (left_half h new)
          (w₂.elsewhere n.page_id apart ∙ (w₁.elsewhere n.page_id apart ∙ stored)) left_kind in
      let (s₄, e₄, w₄) =
        sync-Written c k s₃ n.right_sibling lsn (record o { left_sibling = new })
          (w₃.elsewhere n.right_sibling not_own ∙ (w₂.elsewhere n.right_sibling old_apart ∙ old₁))
          refl in
      (
        new,
        s₄,
        ground (arith, splits, e₁, first, some_right, old₁, e₂, e₃, e₄),
        record {
          positive = w₁.positive;
          fresh = w₁.fresh;
          left_here = w₄.elsewhere n.page_id (λ p. not_own (sym p)) ∙ w₃.here;
          right_here =
              w₄.elsewhere new (λ p. old_apart (sym p))
              ∙ (w₃.elsewhere new (λ p. apart (sym p)) ∙ w₂.here);
          others = λ a p q. elim (ℕ_discrete a n.right_sibling) [
            | yes e ↦ subst (Touched c s s₄) (sym e) (inr (o, new, old, w₄.here))
            | no e ↦
                inl (w₄.elsewhere a e ∙ (w₃.elsewhere a p ∙ (w₂.elsewhere a q ∙ w₁.elsewhere a q)))
          ];
        },
      )

  -- A full leaf is split into two pages; of the others, the old right sibling is relinked.
  pub split_full_leaf-Rewritten :
      (sep : Bytes)
      → get_elem? h.right.keys 0 ≡ some sep
      → (new : ℕ) × (s' : S) × (split_full_leaf c s n lsn
          ≡ done
              (ok (s', record { promoted_separator_key = sep; new_node_id = new; op_lsn = lsn })))
        × Rewritten c s s' n.page_id new (left_half h new) (right_half h n new)
  split_full_leaf-Rewritten sep first = elim (dec_lt 0 n.right_sibling) [
    | yes p ↦
        let (o, old) = (sound n.page_id n₀ stored).right_there (rw same_right p) in
        leaf_sibling sep o first p (ap (build_page c s) (sym same_right) ∙ old)
    | no p ↦ leaf_no_sibling sep first (omega arith)
  ]

  -- The same for an internal node, whose own page its caller writes last.
  abbrev SplitsInner : Bytes → Type 0
  SplitsInner sep =
      (new : ℕ) × (s₃ s' : S) × (split_full_internal c s n lsn
        ≡ done (
            ok (
              s₃,
              (
                left_half h new,
                record { promoted_separator_key = sep; new_node_id = new; op_lsn = lsn },
              ),
            )))
      × (sync c s₃ n.page_id lsn (left_half h new) ≡ some s')
      × Rewritten c s s' n.page_id new (left_half h new) (right_half h n new)

  inner_no_sibling : (sep : Bytes) → h.promoted ≡ some sep → n.right_sibling ≡ 0 → SplitsInner sep
  unfolding split_full_internal old_right_sibling sync_sibling
  inner_no_sibling sep promoted none_right =
      let (new, s₁, e₁, w₁) = assign_frame-Created c k s h.right lsn false in
      let apart = at_none n.page_id new stored w₁.fresh in
      let (n₁, made, kind) = w₁.made in
      let (s₂, e₂, w₂) = sync-Written c k s₁ new lsn (right_half h n new) made kind in
      let (s₃, e₃, w₃) =
        sync-Written c k s₂ n.page_id lsn (left_half h new)
          (w₂.elsewhere n.page_id apart ∙ (w₁.elsewhere n.page_id apart ∙ stored)) left_kind in
      (
        new,
        s₂,
        s₃,
        ground (arith, splits, e₁, promoted, none_right, e₂),
        e₃,
        record {
          positive = w₁.positive;
          fresh = w₁.fresh;
          left_here = w₃.here;
          right_here = w₃.elsewhere new (λ p. apart (sym p)) ∙ w₂.here;
          others = λ a p q. inl (w₃.elsewhere a p ∙ (w₂.elsewhere a q ∙ w₁.elsewhere a q));
        },
      )

  inner_sibling :
      (sep : Bytes) (o : Node)
      → h.promoted ≡ some sep
      → 0 < n.right_sibling
      → build_page c s n.right_sibling ≡ some o
      → SplitsInner sep
  unfolding split_full_internal old_right_sibling sync_sibling
  inner_sibling sep o promoted some_right old =
      let (new, s₁, e₁, w₁) = assign_frame-Created c k s h.right lsn false in
      let apart = at_none n.page_id new stored w₁.fresh in
      let old_apart = at_none n.right_sibling new old w₁.fresh in
      let not_own : n.page_id ≢ n.right_sibling =
        λ e. (sound n.page_id n₀ stored).right_apart (same_right ∙ sym e) in
      let (n₁, made, kind) = w₁.made in
      let old₁ = w₁.elsewhere n.right_sibling old_apart ∙ old in
      let (s₂, e₂, w₂) =
        sync-Written c k s₁ n.right_sibling lsn (record o { left_sibling = new }) old₁ refl in
      let (s₃, e₃, w₃) =
        sync-Written c k s₂ new lsn (right_half h n new)
          (w₂.elsewhere new (λ p. old_apart (sym p)) ∙ made) kind in
      let (s₄, e₄, w₄) =
        sync-Written c k s₃ n.page_id lsn (left_half h new)
          (w₃.elsewhere n.page_id apart
            ∙ (w₂.elsewhere n.page_id not_own ∙ (w₁.elsewhere n.page_id apart ∙ stored)))
          left_kind in
      (
        new,
        s₃,
        s₄,
        ground (arith, splits, e₁, promoted, some_right, old₁, e₂, e₃),
        e₄,
        record {
          positive = w₁.positive;
          fresh = w₁.fresh;
          left_here = w₄.here;
          right_here = w₄.elsewhere new (λ p. apart (sym p)) ∙ w₃.here;
          others = λ a p q. elim (ℕ_discrete a n.right_sibling) [
            | yes e ↦ subst (Touched c s s₄) (sym e) (
                inr (
                  o,
                  new,
                  old,
                  w₄.elsewhere n.right_sibling (λ e'. not_own (sym e'))
                      ∙ (w₃.elsewhere n.right_sibling old_apart ∙ w₂.here),
                ))
            | no e ↦
                inl (w₄.elsewhere a p ∙ (w₃.elsewhere a q ∙ (w₂.elsewhere a e ∙ w₁.elsewhere a q)))
          ];
        },
      )

  pub split_full_internal-Rewritten : (sep : Bytes) → h.promoted ≡ some sep → SplitsInner sep
  split_full_internal-Rewritten sep promoted = elim (dec_lt 0 n.right_sibling) [
    | yes p ↦
        let (o, old) = (sound n.page_id n₀ stored).right_there (rw same_right p) in
        inner_sibling sep o promoted p (ap (build_page c s) (sym same_right) ∙ old)
    | no p ↦ inner_no_sibling sep promoted (omega arith)
  ]
