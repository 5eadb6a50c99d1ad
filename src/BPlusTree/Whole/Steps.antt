-- ===== src/BPlusTree/Whole/Steps.antt =====
-- What the writes of an insertion leave of the other pages.
use baobab.Prelude.{ℕ, ◌<◌, ◌≡◌, ◌≢◌, refl, sym, ap, subst, ◌∙◌, ◌⊎◌, inl, inr, none, some}
use native.Mathlib.Decide.{ℕ_discrete}
use baobab.Prelude.Bytes.{Bytes}
use baobab.BPlusTree.Node.{Node}
use baobab.BPlusTree.Cache.{Cache, Keeps, build_page, sync}
use baobab.BPlusTree.Cache.Writes.{loaded, sync-Written, some-injective, none-not_some}
use baobab.BPlusTree.Whole.Tree.{SameContent, Kept, PageSound, Sound}

module _ {S : Type 0} (c : Cache S) where
  abbrev pub Stored : S → ℕ → Type 0
  Stored s a = (n : Node) × (build_page c s a ≡ some n)

  -- The page `id` may change, and pages may be added.
  pub record Step (s s' : S) (id : ℕ) : Type 0 where
    pub sound : Sound c s'
    pub kept : (a : ℕ) → a ≢ id → Kept c s s' a
    pub stays : (a : ℕ) → Stored s a → Stored s' a

  -- A page that at most a new left pointer was written to.
  abbrev pub Touched : S → S → ℕ → Type 0
  Touched s s' a =
      (build_page c s' a ≡ build_page c s a)
      ⊎ ((n : Node) × (x : ℕ) × (build_page c s a ≡ some n)
          × (build_page c s' a ≡ some (loaded a (record n { left_sibling = x }))))

  pub SameContent-self : (n : Node) → SameContent c n n
  SameContent-self n = record {
    same_leaf = refl;
    same_keys = refl;
    same_right = refl;
    same_id = refl;
    same_values = λ h. refl;
    same_children = λ h. refl;
  }

  pub SameContent-trans : (a b d : Node) → SameContent c a b → SameContent c b d → SameContent c a d
  SameContent-trans a b d p q = record {
    same_leaf = q.same_leaf ∙ p.same_leaf;
    same_keys = q.same_keys ∙ p.same_keys;
    same_right = q.same_right ∙ p.same_right;
    same_id = q.same_id ∙ p.same_id;
    same_values = λ h. q.same_values (p.same_leaf ∙ h) ∙ p.same_values h;
    same_children = λ h. q.same_children (p.same_leaf ∙ h) ∙ p.same_children h;
  }

  relinked_SameContent :
      (a x : ℕ) (n : Node)
      → n.page_id ≡ a
      → SameContent c n (loaded a (record n { left_sibling = x }))
  relinked_SameContent a x n h = record {
    same_leaf = refl;
    same_keys = refl;
    same_right = refl;
    same_id = sym h;
    same_values = λ e. rw e refl;
    same_children = λ e. rw e refl;
  }

  pub Touched-Kept : (s s' : S) (a : ℕ) → Sound c s → Touched s s' a → Kept c s s' a
  Touched-Kept s s' a sound (inl e) n h = (n, e ∙ h, SameContent-self n)
  Touched-Kept s s' a sound (inr (n₀, x, before, after)) n h =
      let same : n₀ ≡ n = some-injective (sym before ∙ h) in
      (
        loaded a (record n₀ { left_sibling = x }),
        after,
        subst (λ m. SameContent c m (loaded a (record n₀ { left_sibling = x }))) same
            (relinked_SameContent a x n₀ (sound a n₀ before).own_page),
      )

  -- Where the page comes from.
  Touched-back :
      (s s' : S) (a : ℕ) (n' : Node)
      → Touched s s' a
      → build_page c s' a ≡ some n'
      → (n : Node) × (build_page c s a ≡ some n)
        × (n'.right_sibling ≡ n.right_sibling)
        × ((build_page c s a ≡ some n') ⊎ (n'.page_id ≡ a))
  Touched-back s s' a n' (inl e) h = (n', sym e ∙ h, refl, inl (sym e ∙ h))
  Touched-back s s' a n' (inr (n₀, x, before, after)) h =
      let same : loaded a (record n₀ { left_sibling = x }) ≡ n' = some-injective (sym after ∙ h) in
      (
        n₀,
        before,
        sym (ap (λ (m : Node). m.right_sibling) same),
        inr (sym (ap (λ (m : Node). m.page_id) same)),
      )

  Touched-PageSound :
      (s s' : S) (a : ℕ) (n' : Node)
      → Sound c s
      → ((b : ℕ) → Stored s b → Stored s' b)
      → Touched s s' a
      → build_page c s' a ≡ some n'
      → PageSound c s' a n'
  Touched-PageSound s s' a n' sound stays t h =
      let (n, before, right, own) = Touched-back s s' a n' t h in
      let old = sound a n before in
      record {
        positive = old.positive;
        own_page = elim own [ inl e ↦ (sound a n' e).own_page | inr e ↦ e ];
        right_apart = λ e. old.right_apart (sym right ∙ e);
        right_there = λ p.
            let there = old.right_there (subst (λ r. 0 < r) right p) in
            subst (λ r. Stored s' r) (sym right) (stays n.right_sibling there);
      }

  -- Pages `id` and `new` are written, the second where there was none; others are touched at most.
  pub record Rewritten (s s' : S) (id new : ℕ) (left right : Node) : Type 0 where
    pub positive : 0 < new
    pub fresh : build_page c s new ≡ none
    pub left_here : build_page c s' id ≡ some (loaded id left)
    pub right_here : build_page c s' new ≡ some (loaded new right)
    pub others : (a : ℕ) → a ≢ id → a ≢ new → Touched s s' a

  Stored-not_fresh : (s : S) (a b : ℕ) → Stored s a → build_page c s b ≡ none → a ≢ b
  Stored-not_fresh s a b (n, e) f same =
      none-not_some (sym f ∙ (ap (build_page c s) (sym same) ∙ e))

  module _ (s s' : S) (id new : ℕ) (left right n : Node) (sound : Sound c s)
      (stored : build_page c s id ≡ some n) (r : Rewritten s s' id new left right)
      (left_right : left.right_sibling ≡ new)
      (right_right : right.right_sibling ≡ n.right_sibling) where
    rewritten_stays : (a : ℕ) → Stored s a → Stored s' a
    rewritten_stays a (m, e) = elim (ℕ_discrete a id) [
      | yes p ↦ (loaded id left, ap (build_page c s') p ∙ r.left_here)
      | no p ↦ elim (ℕ_discrete a new) [
        | yes q ↦ (loaded new right, ap (build_page c s') q ∙ r.right_here)
        | no q ↦ let (m', e', same) = Touched-Kept s s' a sound (r.others a p q) m e in (m', e')
      ]
    ]

    left_PageSound : PageSound c s' id (loaded id left)
    left_PageSound = record {
      positive = (sound id n stored).positive;
      own_page = refl;
      right_apart = λ e. Stored-not_fresh s id new (n, stored) r.fresh (sym e ∙ left_right);
      right_there = λ p. subst (λ b. Stored s' b) (sym left_right) (loaded new right, r.right_here);
    }

    right_PageSound : PageSound c s' new (loaded new right)
    right_PageSound =
        let old = sound id n stored in
        record {
          positive = r.positive;
          own_page = refl;
          right_apart = λ e.
              let at_new : n.right_sibling ≡ new = sym right_right ∙ e in
              Stored-not_fresh s n.right_sibling new
                (old.right_there (subst (λ b. 0 < b) (sym at_new) r.positive)) r.fresh at_new;
          right_there = λ p.
              subst (λ b. Stored s' b) (sym right_right)
                (rewritten_stays n.right_sibling
                  (old.right_there (subst (λ b. 0 < b) right_right p)));
        }

    rewritten_Sound : Sound c s'
    rewritten_Sound a m e = elim (ℕ_discrete a id) [
      | yes p ↦
          let same : loaded id left ≡ m =
            some-injective (sym r.left_here ∙ (ap (build_page c s') (sym p) ∙ e)) in
          subst (λ b. PageSound c s' b m) (sym p)
            (subst (λ x. PageSound c s' id x) same left_PageSound)
      | no p ↦ elim (ℕ_discrete a new) [
        | yes q ↦
            let same : loaded new right ≡ m =
              some-injective (sym r.right_here ∙ (ap (build_page c s') (sym q) ∙ e)) in
            subst (λ b. PageSound c s' b m) (sym q)
              (subst (λ x. PageSound c s' new x) same right_PageSound)
        | no q ↦ Touched-PageSound s s' a m sound rewritten_stays (r.others a p q) e
      ]
    ]

    pub Rewritten-Step : Step s s' id
    Rewritten-Step = record {
      sound = rewritten_Sound;
      kept = λ a p m e. elim (ℕ_discrete a new) [
        | yes q ↦ absurd (Stored-not_fresh s a new (m, e) r.fresh q)
        | no q ↦ Touched-Kept s s' a sound (r.others a p q) m e
      ];
      stays = rewritten_stays;
    }

  -- A write of one page that keeps its right sibling.
  pub sync-Step :
      (k : Keeps c) (s : S) (id : ℕ) (lsn : Bytes) (n n₀ : Node)
      → Sound c s
      → build_page c s id ≡ some n₀
      → n₀.leaf ≡ n.leaf
      → n₀.right_sibling ≡ n.right_sibling
      → (s' : S) × (sync c s id lsn n ≡ some s')
        × (build_page c s' id ≡ some (loaded id n))
        × Step s s' id
  sync-Step k s id lsn n n₀ sound stored leaf right =
      let (s', runs, w) = sync-Written c k s id lsn n stored leaf in
      let stays : (a : ℕ) → Stored s a → Stored s' a = λ a there. elim (ℕ_discrete a id) [
        | yes p ↦ (loaded id n, ap (build_page c s') p ∙ w.here)
        | no p ↦ (there.0, w.elsewhere a p ∙ there.1)
      ] in
      let old = sound id n₀ stored in
      let here : PageSound c s' id (loaded id n) = record {
        positive = old.positive;
        own_page = refl;
        right_apart = λ e. old.right_apart (right ∙ e);
        right_there = λ p.
            subst (λ b. Stored s' b) right
              (stays n₀.right_sibling (old.right_there (subst (λ b. 0 < b) (sym right) p)));
      } in
      (
        s',
        runs,
        w.here,
        record {
          sound = λ a m e. elim (ℕ_discrete a id) [
            | yes p ↦
                let same : loaded id n ≡ m =
                  some-injective (sym w.here ∙ (ap (build_page c s') (sym p) ∙ e)) in
                subst (λ b. PageSound c s' b m) (sym p) (subst (λ x. PageSound c s' id x) same here)
            | no p ↦ Touched-PageSound s s' a m sound stays (inl (w.elsewhere a p)) e
          ];
          kept = λ a p. Touched-Kept s s' a sound (inl (w.elsewhere a p));
          stays = stays;
        },
      )
