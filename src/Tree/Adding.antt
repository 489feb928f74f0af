-- ===== src/Tree/Adding.antt =====
-- mqtt3_sub_add as an operation on the abstract view.
use kocom.Prelude.{
  ℕ, ◌≡◌, refl, ap, ◌∙◌, false, Option, List, [], ◌∷◌, ◌++◌, append_assoc, append-nil, arith,
  text_eq, text_eq_self, text_eq→eq, if◌then◌else◌, inl, inr, Bool-cases, Option-cases, ℤ,
}
use mathlib.Core.Path.{subst}
use kocom.Tree.{Leaf, Hier, Node, Subscriber, find_child, empty_node, tokenise}
use kocom.Tree.Change.{add_leaf, sub_add, add_below, path_eq, forgive, mqtt3_sub_add, first_token}
use kocom.Tree.Tokens.{tokenise-injective}
use kocom.Tree.Paths.{
  whole, subscribers, subs_at, IsUnique, find_child-set, find_child-append, find_child-set_other,
  find_child-append_other, IsUnique-set, IsUnique-append, IsUnique-find,
}

pub subs_at-empty : (p : List (List ℕ)) → subs_at p empty_node ≡ []
unfolding subs_at find_child
subs_at-empty [] = refl
subs_at-empty (t ∷ ts) = refl

module _ (ids : ℕ → Option (List ℕ)) (qos : ℕ) where
  -- At the end of the path the leaves are changed, and the code is that of the change.
  pub sub_add-here :
      (at : List (List ℕ)) (c : Option Subscriber) (q : List (List ℕ)) (n : Node)
      → ((sub_add ids qos at c q n).0, subs_at q (sub_add ids qos at c q n).1)
        ≡ add_leaf ids qos (at ++ q) c (subs_at q n)
  unfolding sub_add subs_at
  sub_add-here at c [] n = rw (append-nil at) refl
  sub_add-here at c (t ∷ ts) n = elim (Option-cases (find_child t n.children)) [
    | inl e ↦
        rw (e, sub_add, subs_at, find_child-append t _ n.children e)
          (sub_add-here (at ++ (t ∷ [])) c ts empty_node
            ∙ rw (subs_at-empty ts, append_assoc at (t ∷ []) ts) refl)
    | inr (m, e) ↦
        rw (e, sub_add, subs_at, find_child-set t _ m n.children e)
          (sub_add-here (at ++ (t ∷ [])) c ts m ∙ rw (append_assoc at (t ∷ []) ts) refl)
  ]

  -- The leaves at the end of another path are not.
  pub sub_add-elsewhere :
      (at : List (List ℕ)) (c : Option Subscriber) (q p : List (List ℕ)) (n : Node)
      → path_eq q p ≡ false
      → subs_at p (sub_add ids qos at c q n).1 ≡ subs_at p n
  unfolding sub_add subs_at
  sub_add-elsewhere at c [] [] n d = cc
  sub_add-elsewhere at c [] (u ∷ us) n d = refl
  sub_add-elsewhere at c (t ∷ ts) [] n d = ground arith
  sub_add-elsewhere at c (t ∷ ts) (u ∷ us) n d = elim (Bool-cases (text_eq t u)) [
    | inl same ↦
        let d' : path_eq ts us ≡ false = ground arith in
        rw (← text_eq→eq t u same) (elim (Option-cases (find_child t n.children)) [
          | inl e ↦
              rw (e, sub_add, subs_at, find_child-append t _ n.children e)
                (sub_add-elsewhere (at ++ (t ∷ [])) c ts us empty_node d' ∙ subs_at-empty us)
          | inr (m, e) ↦
              rw (e, sub_add, subs_at, find_child-set t _ m n.children e)
                (sub_add-elsewhere (at ++ (t ∷ [])) c ts us m d')
        ])
    | inr differ ↦ elim (Option-cases (find_child t n.children)) [
      | inl e ↦ rw (sub_add, e, subs_at, find_child-append_other t _ u differ n.children) refl
      | inr (m, e) ↦ rw (sub_add, e, subs_at, find_child-set_other t _ u differ n.children) refl
    ]
  ]

  pub sub_add-IsUnique :
      (at : List (List ℕ)) (c : Option Subscriber) (q : List (List ℕ)) (n : Node)
      → IsUnique n.children
      → IsUnique (sub_add ids qos at c q n).1.children
  unfolding sub_add
  sub_add-IsUnique at c [] n h = h
  sub_add-IsUnique at c (t ∷ ts) n h = elim (Option-cases (find_child t n.children)) [
    | inl e ↦
        rw (sub_add, e)
          (IsUnique-append t _ n.children h e
            (sub_add-IsUnique (at ++ (t ∷ [])) c ts empty_node (unfold IsUnique in tt)))
    | inr (m, e) ↦
        rw (sub_add, e)
          (IsUnique-set t _ n.children h
            (sub_add-IsUnique (at ++ (t ∷ [])) c ts m (IsUnique-find t m n.children h e)))
  ]

module _ (ids : ℕ → Option (List ℕ)) (qos : ℕ) (c : Option Subscriber) (t : List ℕ)
    (ts : List (List ℕ)) where
  add_below-here :
      (root : Hier)
      → (
        (add_below ids qos c t ts root).0,
        subs_at (t ∷ ts) (whole (add_below ids qos c t ts root).1),
      )
        ≡ add_leaf ids qos (t ∷ ts) c (subs_at (t ∷ ts) (whole root))
  unfolding add_below subs_at find_child
  add_below-here root = elim (Option-cases (find_child t root)) [
    | inl e ↦
        rw (e, add_below, subs_at, text_eq_self t)
          (sub_add-here ids qos (t ∷ []) c ts empty_node ∙ rw (subs_at-empty ts) refl)
    | inr (m, e) ↦
        rw (e, add_below, subs_at, find_child-set t _ m root e)
          (sub_add-here ids qos (t ∷ []) c ts m)
  ]

  add_below-same_child :
      (us : List (List ℕ)) (root : Hier)
      → path_eq ts us ≡ false
      → subs_at (t ∷ us) (whole (add_below ids qos c t ts root).1) ≡ subs_at (t ∷ us) (whole root)
  unfolding add_below subs_at find_child
  add_below-same_child us root d = elim (Option-cases (find_child t root)) [
    | inl e ↦
        rw (e, add_below, subs_at, text_eq_self t)
          (sub_add-elsewhere ids qos (t ∷ []) c ts us empty_node d ∙ subs_at-empty us)
    | inr (m, e) ↦
        rw (e, add_below, subs_at, find_child-set t _ m root e)
          (sub_add-elsewhere ids qos (t ∷ []) c ts us m d)
  ]

  add_below-elsewhere :
      (u : List ℕ) (us : List (List ℕ)) (root : Hier)
      → path_eq ts us ≡ false
      → subs_at (u ∷ us) (whole (add_below ids qos c t ts root).1) ≡ subs_at (u ∷ us) (whole root)
  unfolding add_below subs_at find_child
  add_below-elsewhere u us root d = elim (Bool-cases (text_eq t u)) [
    | inl same ↦
        subst
          (λ w.
            subs_at (w ∷ us) (whole (add_below ids qos c t ts root).1)
            ≡ subs_at (w ∷ us) (whole root))
          (text_eq→eq t u same) (add_below-same_child us root d)
    | inr n ↦ elim (Option-cases (find_child t root)) [
      | inl e ↦ rw (add_below, e, subs_at, n) refl
      | inr (m, e) ↦ rw (add_below, e, subs_at, find_child-set_other t _ u n root) refl
    ]
  ]

  add_below-IsUnique : (root : Hier) → IsUnique root → IsUnique (add_below ids qos c t ts root).1
  unfolding add_below IsUnique
  add_below-IsUnique root h = elim (Option-cases (find_child t root)) [
    | inl e ↦ rw (add_below, e) (e, sub_add-IsUnique ids qos (t ∷ []) c ts empty_node tt, h)
    | inr (m, e) ↦
        rw (add_below, e)
          (IsUnique-set t _ root h
            (sub_add-IsUnique ids qos (t ∷ []) c ts m (IsUnique-find t m root h e)))
  ]

-- What a subscription is to do with the leaves of the filter; the code and the client.
abbrev pub added :
    (ℕ → Option (List ℕ))
    → Option Subscriber
    → List ℕ
    → ℕ
    → Hier
    → (ℤ × Option Subscriber) × List Leaf
unfolding add_leaf subscribers tokenise
added ids c sub qos root =
    let tokens = tokenise sub in
    let ((rc, c'), subs) =
      add_leaf ids qos (first_token tokens ∷ tokens) c (subscribers sub root) in
    ((forgive rc, c'), subs)

-- On any tree, subscribing changes one entry of the abstract view: the leaves of the filter become
-- what add_leaf makes of them (a leaf for the client behind the others, or the new QoS for the leaf
-- of a client with the same id), and the leaves of every other filter stay as they were. The client
-- is the one that add_leaf gives, and the code is that of add_leaf, with 0 for -1.
pub mqtt3_sub_add-subscribers :
    (ids : ℕ → Option (List ℕ)) (c : Option Subscriber) (sub other : List ℕ) (qos : ℕ) (root : Hier)
    → ((mqtt3_sub_add ids c sub qos root).0 ≡ (added ids c sub qos root).0)
      × (subscribers other (mqtt3_sub_add ids c sub qos root).1
          ≡ (if text_eq sub other then (added ids c sub qos root).1 else subscribers other root))
unfolding mqtt3_sub_add subscribers added
mqtt3_sub_add-subscribers ids c sub other qos root =
    let tokens = tokenise sub in
    let h = add_below-here ids qos c (first_token tokens) tokens root in
    (
      ap (λ r. (forgive r.0.0, r.0.1)) h,
      elim (Bool-cases (text_eq sub other)) [
        | inl same ↦ rw (← text_eq→eq sub other same, text_eq_self sub) (ap (λ r. r.1) h)
        | inr differ ↦ rw differ (
            add_below-elsewhere ids qos c (first_token tokens) tokens _ _ root
              (tokenise-injective sub other differ))
      ],
    )

-- Subscribing keeps elements with one parent different.
pub mqtt3_sub_add-IsUnique :
    (ids : ℕ → Option (List ℕ)) (c : Option Subscriber) (sub : List ℕ) (qos : ℕ) (root : Hier)
    → IsUnique root
    → IsUnique (mqtt3_sub_add ids c sub qos root).1
unfolding mqtt3_sub_add
mqtt3_sub_add-IsUnique ids c sub qos root h = add_below-IsUnique ids qos c _ _ root h
