-- ===== src/Tree/Removing.antt =====
-- mqtt3_sub_remove as an operation on the abstract view.
use kocom.Prelude.{
  ℕ, ◌≡◌, refl, ap, ◌∙◌, true, false, Option, none, some, List, [], ◌∷◌, ◌++◌, append_assoc,
  append-nil, arith, text_eq, text_eq_self, text_eq→eq, if◌then◌else◌, inl, inr, Bool-cases,
  Option-cases,
}
use mathlib.Core.Path.{subst}
use kocom.Tree.{
  Leaf, Hier, null, hier, Node, Subscriber, find_child, set_child, unlink_child, tokenise,
  is_unused,
}
use kocom.Tree.Change.{
  remove_leaf, drop_leaf, sub_remove, remove_below, path_eq, mqtt3_sub_remove, first_token,
}
use kocom.Tree.Tokens.{tokenise-injective}
use kocom.Tree.Paths.{
  whole, subscribers, subs_at, IsUnique, find_child-set, find_child-unlink, find_child-set_other,
  find_child-unlink_other, IsUnique-set, IsUnique-unlink, IsUnique-find,
}

-- Nothing is lost with an element that is not used.
unused-fields :
    (p : List (List ℕ)) (s : List Leaf) (r : Option ℕ) (ch : Hier)
    → is_unused (record { subs = s; retained = r; children = ch }) ≡ true
    → subs_at p (record { subs = s; retained = r; children = ch }) ≡ []
unfolding subs_at is_unused find_child
unused-fields [] [] r ch h = refl
unused-fields (t ∷ p) [] r null h = refl
unused-fields [] (l ∷ s) r ch h = ground arith
unused-fields (t ∷ p) (l ∷ s) r null h = cc
unused-fields (t ∷ p) s r (hier u v w ch next) h = cc

unused-subs_at : (p : List (List ℕ)) (n : Node) → is_unused n ≡ true → subs_at p n ≡ []
unused-subs_at p n h = unused-fields p n.subs n.retained n.children h

-- After what _sub_remove does with a child: written back, or unlinked.
unfoldable pub leave : List ℕ → Node → Hier → Hier
leave t n f = if is_unused n then unlink_child t f else set_child t n f

module _ (t : List ℕ) (m n : Node) (f : Hier) (h : IsUnique f) (e : find_child t f ≡ some m) where
  pub leave-here :
      (own : Node) (p : List (List ℕ))
      → subs_at (t ∷ p) (record own { children = leave t n f }) ≡ subs_at p n
  unfolding leave subs_at
  leave-here own p = elim (Bool-cases (is_unused n)) [
    | inl u ↦ rw (u, subs_at, find_child-unlink t n f h, unused-subs_at p n u) refl
    | inr w ↦ rw (w, subs_at, find_child-set t n m f e) refl
  ]

  pub leave-elsewhere :
      (own : Node) (u : List ℕ) (p : List (List ℕ))
      → text_eq t u ≡ false
      → subs_at (u ∷ p) (record own { children = leave t n f })
        ≡ subs_at (u ∷ p) (record own { children = f })
  unfolding leave subs_at
  leave-elsewhere own u p d = elim (Bool-cases (is_unused n)) [
    | inl x ↦ rw (x, subs_at, find_child-unlink_other t n u d f) refl
    | inr w ↦ rw (w, subs_at, find_child-set_other t n u d f) refl
  ]

  pub leave-IsUnique : IsUnique n.children → IsUnique (leave t n f)
  unfolding leave
  leave-IsUnique b = elim (Bool-cases (is_unused n)) [
    | inl x ↦ rw x (IsUnique-unlink t n f h)
    | inr w ↦ rw w (IsUnique-set t n f h b)
  ]

sub_remove-found :
    (at : List (List ℕ)) (c : Subscriber) (t : List ℕ) (ts : List (List ℕ)) (n m : Node)
    → find_child t n.children ≡ some m
    → let removed = sub_remove (at ++ (t ∷ [])) c ts m in
      sub_remove at c (t ∷ ts) n ≡ (removed.0, record n { children = leave t removed.1 n.children })
unfolding sub_remove leave
sub_remove-found at c t ts n m e =
    rw (sub_remove, e)
      (elim (Bool-cases (is_unused (sub_remove (at ++ (t ∷ [])) c ts m).1)) [
        | inl u ↦ rw (u, leave) refl
        | inr w ↦ rw (w, leave) refl
      ])

sub_remove-missing :
    (at : List (List ℕ)) (c : Subscriber) (t : List ℕ) (ts : List (List ℕ)) (n : Node)
    → find_child t n.children ≡ none
    → sub_remove at c (t ∷ ts) n ≡ (c, n)
unfolding sub_remove
sub_remove-missing at c t ts n e = rw (sub_remove, e) refl

-- At the end of the path a leaf is dropped.
sub_remove-here :
    (at : List (List ℕ)) (c : Subscriber) (q : List (List ℕ)) (n : Node)
    → IsUnique n.children
    → ((sub_remove at c q n).0, subs_at q (sub_remove at c q n).1)
      ≡ drop_leaf (at ++ q) c (subs_at q n)
unfolding sub_remove subs_at
sub_remove-here at c [] n h = rw (append-nil at) refl
sub_remove-here at c (t ∷ ts) n h = elim (Option-cases (find_child t n.children)) [
  | inl e ↦ rw (sub_remove-missing at c t ts n e, subs_at, e) (unfold drop_leaf remove_leaf in refl)
  | inr (m, e) ↦
      rw (sub_remove-found at c t ts n m e, leave-here t m _ n.children h e n ts, subs_at, e)
        (sub_remove-here (at ++ (t ∷ [])) c ts m (IsUnique-find t m n.children h e)
          ∙ rw (append_assoc at (t ∷ []) ts) refl)
]

sub_remove-IsUnique :
    (at : List (List ℕ)) (c : Subscriber) (q : List (List ℕ)) (n : Node)
    → IsUnique n.children
    → IsUnique (sub_remove at c q n).1.children
unfolding sub_remove
sub_remove-IsUnique at c [] n h = h
sub_remove-IsUnique at c (t ∷ ts) n h = elim (Option-cases (find_child t n.children)) [
  | inl e ↦ rw (sub_remove-missing at c t ts n e) h
  | inr (m, e) ↦ rw (sub_remove-found at c t ts n m e) (
      leave-IsUnique t m _ n.children h e
        (sub_remove-IsUnique (at ++ (t ∷ [])) c ts m (IsUnique-find t m n.children h e)))
]

-- No other leaf is, if that is so below the child.
pub below-elsewhere :
    (t : List ℕ) (ts p : List (List ℕ)) (m b n : Node)
    → IsUnique n.children
    → find_child t n.children ≡ some m
    → path_eq (t ∷ ts) p ≡ false
    → ((us : List (List ℕ)) → path_eq ts us ≡ false → subs_at us b ≡ subs_at us m)
    → subs_at p (record n { children = leave t b n.children }) ≡ subs_at p n
unfolding subs_at
below-elsewhere t ts [] m b n h e d ih = refl
below-elsewhere t ts (u ∷ us) m b n h e d ih = elim (Bool-cases (text_eq t u)) [
  | inr differ ↦ leave-elsewhere t m b n.children h e n u us differ
  | inl same ↦
      subst
        (λ w. subs_at (w ∷ us) (record n { children = leave t b n.children }) ≡ subs_at (w ∷ us) n)
        (text_eq→eq t u same)
        (leave-here t m b n.children h e n us ∙ rw (subs_at, e) (ih us (ground arith)))
]

sub_remove-elsewhere :
    (at : List (List ℕ)) (c : Subscriber) (q p : List (List ℕ)) (n : Node)
    → IsUnique n.children
    → path_eq q p ≡ false
    → subs_at p (sub_remove at c q n).1 ≡ subs_at p n
unfolding sub_remove subs_at
sub_remove-elsewhere at c [] [] n h d = cc
sub_remove-elsewhere at c [] (u ∷ us) n h d = refl
sub_remove-elsewhere at c (t ∷ ts) p n h d = elim (Option-cases (find_child t n.children)) [
  | inl e ↦ rw (sub_remove-missing at c t ts n e) refl
  | inr (m, e) ↦ rw (sub_remove-found at c t ts n m e) (
      below-elsewhere t ts p m _ n h e d
        (λ us. sub_remove-elsewhere (at ++ (t ∷ [])) c ts us m (IsUnique-find t m n.children h e)))
]

module _ (c : Subscriber) (t : List ℕ) (ts : List (List ℕ)) (root : Hier) (h : IsUnique root) where
  remove_below-here :
      ((remove_below c t ts root).0, subs_at (t ∷ ts) (whole (remove_below c t ts root).1))
      ≡ drop_leaf (t ∷ ts) c (subs_at (t ∷ ts) (whole root))
  unfolding remove_below subs_at
  remove_below-here = elim (Option-cases (find_child t root)) [
    | inl e ↦ rw (remove_below, e, subs_at, e) (unfold drop_leaf remove_leaf in refl)
    | inr (m, e) ↦
        rw (remove_below, e, subs_at, find_child-set t _ m root e)
          (sub_remove-here (t ∷ []) c ts m (IsUnique-find t m root h e))
  ]

  remove_below-same_child :
      (us : List (List ℕ))
      → path_eq ts us ≡ false
      → subs_at (t ∷ us) (whole (remove_below c t ts root).1) ≡ subs_at (t ∷ us) (whole root)
  unfolding remove_below subs_at
  remove_below-same_child us d = elim (Option-cases (find_child t root)) [
    | inl e ↦ rw (remove_below, e) refl
    | inr (m, e) ↦
        rw (remove_below, e, subs_at, find_child-set t _ m root e)
          (sub_remove-elsewhere (t ∷ []) c ts us m (IsUnique-find t m root h e) d)
  ]

  remove_below-elsewhere :
      (u : List ℕ) (us : List (List ℕ))
      → path_eq ts us ≡ false
      → subs_at (u ∷ us) (whole (remove_below c t ts root).1) ≡ subs_at (u ∷ us) (whole root)
  unfolding remove_below subs_at
  remove_below-elsewhere u us d = elim (Bool-cases (text_eq t u)) [
    | inl same ↦
        subst
          (λ w.
            subs_at (w ∷ us) (whole (remove_below c t ts root).1) ≡ subs_at (w ∷ us) (whole root))
          (text_eq→eq t u same) (remove_below-same_child us d)
    | inr n ↦ elim (Option-cases (find_child t root)) [
      | inl e ↦ rw (remove_below, e) refl
      | inr (m, e) ↦ rw (remove_below, e, subs_at, find_child-set_other t _ u n root) refl
    ]
  ]

  remove_below-IsUnique : IsUnique (remove_below c t ts root).1
  unfolding remove_below
  remove_below-IsUnique = elim (Option-cases (find_child t root)) [
    | inl e ↦ rw (remove_below, e) h
    | inr (m, e) ↦
        rw (remove_below, e)
          (IsUnique-set t _ root h
            (sub_remove-IsUnique (t ∷ []) c ts m (IsUnique-find t m root h e)))
  ]

-- What an unsubscription is to do with the leaves of the filter, and with the client.
abbrev pub dropped : Subscriber → List ℕ → Hier → Subscriber × List Leaf
unfolding drop_leaf subscribers tokenise
dropped c sub root =
    let tokens = tokenise sub in drop_leaf (first_token tokens ∷ tokens) c (subscribers sub root)

-- In a tree in which elements with one parent differ in their topics, unsubscribing changes one
-- entry of the abstract view, whatever elements it unlinks: the leaves of the filter lose the first
-- one that points to the client, if there is one, and the client then loses the entry in
-- context->subs; the leaves of every other filter stay as they were.
pub mqtt3_sub_remove-subscribers :
    (c : Subscriber) (sub other : List ℕ) (root : Hier)
    → IsUnique root
    → ((mqtt3_sub_remove c sub root).0 ≡ (dropped c sub root).0)
      × (subscribers other (mqtt3_sub_remove c sub root).1
          ≡ (if text_eq sub other then (dropped c sub root).1 else subscribers other root))
unfolding mqtt3_sub_remove subscribers dropped
mqtt3_sub_remove-subscribers c sub other root u =
    let tokens = tokenise sub in
    let h = remove_below-here c (first_token tokens) tokens root u in
    (
      ap (λ r. r.0) h,
      elim (Bool-cases (text_eq sub other)) [
        | inl same ↦ rw (← text_eq→eq sub other same, text_eq_self sub) (ap (λ r. r.1) h)
        | inr differ ↦ rw differ (
            remove_below-elsewhere c (first_token tokens) tokens root u _ _
              (tokenise-injective sub other differ))
      ],
    )

-- Unsubscribing keeps elements with one parent different.
pub mqtt3_sub_remove-IsUnique :
    (c : Subscriber) (sub : List ℕ) (root : Hier)
    → IsUnique root
    → IsUnique (mqtt3_sub_remove c sub root).1
unfolding mqtt3_sub_remove
mqtt3_sub_remove-IsUnique c sub root h = remove_below-IsUnique c _ _ root h
