-- ===== src/Tree/Paths.antt =====
-- The abstract view of the tree: the element on each path, and its leaves.
use kocom.Prelude.{
  ℕ, ◌≡◌, refl, ap, true, false, none, some, List, [], ◌∷◌, arith, text_eq, text_eq_self,
  text_eq_comm, ◌∙◌, text_eq→eq, inl, inr, Bool-cases,
}
use mathlib.Core.Path.{subst}
use mathlib.Core.Option.{some-injective}
use kocom.Tree.Change.{first_token}
use kocom.Tree.{
  tokenise, Leaf, Hier, null, hier, Node, find_child, set_child, append_child, unlink_child,
  empty_node,
}

-- The leaves below an element on a path of topics; none where there is no such element.
unfoldable pub subs_at : List (List ℕ) → Node → List Leaf
subs_at [] n = n.subs
subs_at (t ∷ ts) n = elim (find_child t n.children) [ none ↦ [] | some m ↦ subs_at ts m ]

-- Elements with one parent differ in their topics, and so below each of them.
unfoldable pub IsUnique : Hier → Type 0
IsUnique null = Unit
IsUnique (hier t s r ch next) = (find_child t next ≡ none) × IsUnique ch × IsUnique next

text_eq-swap : (v t u : List ℕ) → text_eq v t ≡ true → text_eq v u ≡ text_eq t u
text_eq-swap v t u same = ap (λ w. text_eq w u) (text_eq→eq v t same)

module _ (t : List ℕ) (n : Node) where
  -- What a search finds after each change, for the topic itself.
  pub find_child-set :
      (m : Node) (f : Hier) → find_child t f ≡ some m → find_child t (set_child t n f) ≡ some n
  unfolding find_child set_child
  find_child-set m null h = cc
  find_child-set m (hier u s r ch next) h = ground (arith, find_child-set m next)

  pub find_child-append :
      (f : Hier) → find_child t f ≡ none → find_child t (append_child f t n) ≡ some n
  unfolding find_child append_child
  find_child-append null h = ground (arith, text_eq_self t)
  find_child-append (hier u s r ch next) h = ground (arith, find_child-append next)

  pub find_child-unlink : (f : Hier) → IsUnique f → find_child t (unlink_child t f) ≡ none
  unfolding find_child unlink_child IsUnique
  find_child-unlink null h = refl
  find_child-unlink (hier u s r ch next) (first, below, rest) = elim (Bool-cases (text_eq u t)) [
    | inl same ↦ rw (same, ← text_eq→eq u t same) first
    | inr differ ↦ rw (differ, find_child, differ) (find_child-unlink next rest)
  ]

  -- A topic that was not there is still not there.
  pub find_child-set_none :
      (u : List ℕ) (f : Hier) → find_child u f ≡ none → find_child u (set_child t n f) ≡ none
  unfolding find_child set_child
  find_child-set_none u null h = refl
  find_child-set_none u (hier v s r ch next) h = ground (arith, find_child-set_none u next)

  pub find_child-unlink_none :
      (u : List ℕ) (f : Hier) → find_child u f ≡ none → find_child u (unlink_child t f) ≡ none
  unfolding find_child unlink_child
  find_child-unlink_none u null h = refl
  find_child-unlink_none u (hier v s r ch next) h = ground (arith, find_child-unlink_none u next)

  -- Another topic is found as before.
  module _ (u : List ℕ) (d : text_eq t u ≡ false) where
    pub find_child-set_other : (f : Hier) → find_child u (set_child t n f) ≡ find_child u f
    unfolding find_child set_child
    find_child-set_other null = refl
    find_child-set_other (hier v s r ch next) =
        ground (arith, find_child-set_other next, text_eq-swap v t u)

    pub find_child-append_other : (f : Hier) → find_child u (append_child f t n) ≡ find_child u f
    unfolding find_child append_child
    find_child-append_other null = ground arith
    find_child-append_other (hier v s r ch next) = ground (arith, find_child-append_other next)

    pub find_child-unlink_other : (f : Hier) → find_child u (unlink_child t f) ≡ find_child u f
    unfolding find_child unlink_child
    find_child-unlink_other null = refl
    find_child-unlink_other (hier v s r ch next) =
        ground (arith, find_child-unlink_other next, text_eq-swap v t u)

  pub IsUnique-set : (f : Hier) → IsUnique f → IsUnique n.children → IsUnique (set_child t n f)
  unfolding IsUnique set_child
  IsUnique-set null h b = h
  IsUnique-set (hier u s r ch next) (first, below, rest) b = elim (Bool-cases (text_eq u t)) [
    | inl same ↦ rw same (first, b, rest)
    | inr differ ↦ rw differ (find_child-set_none u next first, below, IsUnique-set next rest b)
  ]

  pub IsUnique-append :
      (f : Hier)
      → IsUnique f
      → find_child t f ≡ none
      → IsUnique n.children
      → IsUnique (append_child f t n)
  unfolding IsUnique append_child find_child
  IsUnique-append null h e b = (refl, b, tt)
  IsUnique-append (hier u s r ch next) (first, below, rest) e b =
      let d : text_eq u t ≡ false = ground arith in
      (
        find_child-append_other u (text_eq_comm t u ∙ d) next ∙ first,
        below,
        IsUnique-append next rest (ground arith) b,
      )

  pub IsUnique-unlink : (f : Hier) → IsUnique f → IsUnique (unlink_child t f)
  unfolding IsUnique unlink_child
  IsUnique-unlink null h = h
  IsUnique-unlink (hier u s r ch next) (first, below, rest) = elim (Bool-cases (text_eq u t)) [
    | inl same ↦ rw same rest
    | inr differ ↦ rw differ (find_child-unlink_none u next first, below, IsUnique-unlink next rest)
  ]

pub IsUnique-find :
    (t : List ℕ) (m : Node) (f : Hier) → IsUnique f → find_child t f ≡ some m → IsUnique m.children
unfolding IsUnique find_child
IsUnique-find t m null h e = cc
IsUnique-find t m (hier u s r ch next) (first, below, rest) e = elim (Bool-cases (text_eq u t)) [
  | inl same ↦
      let here : record { subs = s; retained = r; children = ch } ≡ m =
        some-injective _ _ (ground arith) in
      subst (λ x. IsUnique x.children) here below
  | inr differ ↦ IsUnique-find t m next rest (ground arith)
]

-- The whole tree, an element without leaves.
abbrev pub whole : Hier → Node
whole root = record empty_node { children = root }

-- The leaves of a filter.
unfoldable pub subscribers : List ℕ → Hier → List Leaf
subscribers sub root =
    let tokens = tokenise sub in subs_at (first_token tokens ∷ tokens) (whole root)

-- The path of a filter in the whole tree.
unfoldable pub path_of : List ℕ → List (List ℕ)
unfolding tokenise
path_of sub = let tokens = tokenise sub in first_token tokens ∷ tokens
