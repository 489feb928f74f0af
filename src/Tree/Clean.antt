-- ===== src/Tree/Clean.antt =====
-- mqtt3_subs_clean_session of src/subs.c, with tmp_remove_subs.
use kocom.Prelude.{
  ℕ, ◌≡◌, refl, sym, ap, ◌∙◌, Bool, true, false, ◌||◌, Option, none, some, List, [], ◌∷◌, arith,
  text_eq, text_eq_self, text_eq_comm, text_eq→eq, if◌then◌else◌, inl, inr, Bool-cases,
  Option-cases,
}
use mathlib.Core.Path.{subst}
use kocom.Tree.{
  Leaf, Hier, Node, Subscriber, find_child, set_child, unlink_child, is_unused, is_nobody,
}
use kocom.Tree.Change.{remove_leaf, path_eq}
use kocom.Tree.Tokens.{path_eq→eq}
use kocom.Tree.Paths.{
  whole, subscribers, path_of, subs_at, IsUnique, find_child-set, find_child-set_other,
  IsUnique-set, IsUnique-find,
}
use kocom.Tree.Removing.{leave, leave-here, leave-IsUnique, below-elsewhere}

-- The leaves without the first one that points to the client.
unfoldable pub without : ℕ → List Leaf → List Leaf
without addr subs = elim (remove_leaf addr subs) [ none ↦ subs | some rest ↦ rest ]

-- The element at the end of the path loses its leaf; from there up, each element that is not used any
-- more is unlinked. `none` is a pointer to an element that is not there.
unfoldable pub clean_at : ℕ → List (List ℕ) → Node → Option Node
clean_at addr [] n = some (record n { subs = without addr n.subs })
clean_at addr (t ∷ ts) n = elim (find_child t n.children) [
  | none ↦ none
  | some m ↦ elim (clean_at addr ts m) [
    | none ↦ none
    | some m' ↦
        let children =
          if is_unused m' then unlink_child t n.children else set_child t m' n.children in
        some (record n { children = children })
  ]
]

-- The children of the root that mqtt3_db_open makes have no parent, and stay.
abbrev pub has_no_parent : List ℕ → Bool
has_no_parent t = text_eq t [] || text_eq t (36 ∷ 83 ∷ 89 ∷ 83 ∷ [])

unfoldable pub clean_path : ℕ → List (List ℕ) → Hier → Option Hier
clean_path addr [] root = none
clean_path addr (t ∷ ts) root = elim (find_child t root) [
  | none ↦ none
  | some m ↦ elim (clean_at addr ts m) [
    | none ↦ none
    | some m' ↦ some (
        if has_no_parent t
        then set_child t m' root
        else if is_unused m'
        then unlink_child t root
        else set_child t m' root)
  ]
]

-- The loop over context->subs.
unfoldable pub clean_slots : ℕ → List (Option (List (List ℕ))) → Hier → Option Hier
clean_slots addr [] root = some root
clean_slots addr (none ∷ slots) root = clean_slots addr slots root
clean_slots addr (some path ∷ slots) root = elim (clean_path addr path root) [
  | none ↦ none
  | some root' ↦ clean_slots addr slots root'
]

-- mqtt3_subs_clean_session, which returns MOSQ_ERR_SUCCESS: the client and the tree
unfoldable pub subs_clean_session : Subscriber → Hier → Option (Subscriber × Hier)
subs_clean_session c root = elim (clean_slots c.addr c.subs root) [
  | none ↦ none
  | some root' ↦ some (record c { subs = [] }, root')
]

path_eq_comm : (p q : List (List ℕ)) → path_eq p q ≡ path_eq q p
path_eq_comm [] [] = refl
path_eq_comm [] (u ∷ us) = refl
path_eq_comm (t ∷ ts) [] = refl
path_eq_comm (t ∷ ts) (u ∷ us) = ground (arith, text_eq_comm t u, path_eq_comm ts us)

path_eq_self : (p : List (List ℕ)) → path_eq p p ≡ true
path_eq_self [] = refl
path_eq_self (t ∷ ts) = ground (arith, text_eq_self t, path_eq_self ts)

-- What cleaning at a path comes to.
record IsCleaned (addr : ℕ) (q : List (List ℕ)) (n n' : Node) : Type 0 where
  at : subs_at q n' ≡ without addr (subs_at q n)
  elsewhere : (p : List (List ℕ)) → path_eq q p ≡ false → subs_at p n' ≡ subs_at p n
  unique : IsUnique n'.children

clean_at-IsCleaned :
    (addr : ℕ) (q : List (List ℕ)) (n : Node)
    → IsUnique n.children
    → is_nobody (subs_at q n) ≡ false
    → (n' : Node) × (clean_at addr q n ≡ some n') × IsCleaned addr q n n'
unfolding clean_at subs_at leave
clean_at-IsCleaned addr [] n u h = (
  record n { subs = without addr n.subs },
  refl,
  record { at = refl; elsewhere = λ p d. other p d; unique = u },
)
  where
    other :
        (p : List (List ℕ))
        → path_eq [] p ≡ false
        → subs_at p (record n { subs = without addr n.subs }) ≡ subs_at p n
    other [] d = cc
    other (v ∷ vs) d = refl
clean_at-IsCleaned addr (t ∷ ts) n u h = elim (Option-cases (find_child t n.children)) [
  | inl e ↦ let z : is_nobody (subs_at (t ∷ ts) n) ≡ true = rw (subs_at, e) refl in cc
  | inr (m, e) ↦
      let s : subs_at (t ∷ ts) n ≡ subs_at ts m = rw (subs_at, e) refl in
      let (m', f, c) =
        clean_at-IsCleaned addr ts m (IsUnique-find t m n.children u e)
          (ap is_nobody (sym s) ∙ h) in
      (
        record n { children = leave t m' n.children },
        rw (clean_at, e, f) refl,
        record {
          at = leave-here t m m' n.children u e n ts ∙ c.at ∙ ap (without addr) (sym s);
          elsewhere = λ p d. below-elsewhere t ts p m m' n u e d c.elsewhere;
          unique = leave-IsUnique t m m' n.children u e c.unique;
        },
      )
]

module _ (t : List ℕ) (m m' : Node) (root : Hier) (e : find_child t root ≡ some m) where
  set-same : (us : List (List ℕ)) → subs_at (t ∷ us) (whole (set_child t m' root)) ≡ subs_at us m'
  unfolding subs_at
  set-same us = rw (subs_at, find_child-set t m' m root e) refl

  set-elsewhere :
      (ts p : List (List ℕ))
      → ((us : List (List ℕ)) → path_eq ts us ≡ false → subs_at us m' ≡ subs_at us m)
      → path_eq (t ∷ ts) p ≡ false
      → subs_at p (whole (set_child t m' root)) ≡ subs_at p (whole root)
  unfolding subs_at
  set-elsewhere ts [] h d = refl
  set-elsewhere ts (v ∷ vs) h d = elim (Bool-cases (text_eq t v)) [
    | inl same ↦
        subst (λ w. subs_at (w ∷ vs) (whole (set_child t m' root)) ≡ subs_at (w ∷ vs) (whole root))
          (text_eq→eq t v same) (set-same vs ∙ h vs (ground arith) ∙ sym (rw (subs_at, e) refl))
    | inr n ↦ rw (subs_at, find_child-set_other t m' v n root) refl
  ]

clean_path-IsCleaned :
    (addr : ℕ) (q : List (List ℕ)) (root : Hier)
    → IsUnique root
    → is_nobody (subs_at q (whole root)) ≡ false
    → (root' : Hier) × (clean_path addr q root ≡ some root')
      × IsCleaned addr q (whole root) (whole root')
unfolding clean_path subs_at
clean_path-IsCleaned addr [] root u h = cc
clean_path-IsCleaned addr (t ∷ ts) root u h = elim (Option-cases (find_child t root)) [
  | inl e ↦ let z : is_nobody (subs_at (t ∷ ts) (whole root)) ≡ true = rw (subs_at, e) refl in cc
  | inr (m, e) ↦
      let s : subs_at (t ∷ ts) (whole root) ≡ subs_at ts m = rw (subs_at, e) refl in
      let (m', f, c) =
        clean_at-IsCleaned addr ts m (IsUnique-find t m root u e) (ap is_nobody (sym s) ∙ h) in
      elim (Bool-cases (has_no_parent t)) [
        | inl stays ↦ (
          set_child t m' root,
          rw (clean_path, e, f, stays) refl,
          record {
            at = set-same t m m' root e ts ∙ c.at ∙ ap (without addr) (sym s);
            elsewhere = λ p d. set-elsewhere t m m' root e ts p c.elsewhere d;
            unique = IsUnique-set t m' root u c.unique;
          },
        )
        | inr goes ↦ (
          leave t m' root,
          rw (clean_path, e, f, goes) (unfold leave in refl),
          record {
            at = leave-here t m m' root u e (whole root) ts ∙ c.at ∙ ap (without addr) (sym s);
            elsewhere = λ p d. below-elsewhere t ts p m m' (whole root) u e d c.elsewhere;
            unique = leave-IsUnique t m m' root u e c.unique;
          },
        )
      ]
]

-- The slots of a client: no path stands twice, and there is a leaf at each.
unfoldable pub IsApart : List (List ℕ) → List (Option (List (List ℕ))) → Type 0
IsApart q [] = Unit
IsApart q (none ∷ slots) = IsApart q slots
IsApart q (some p ∷ slots) = (path_eq q p ≡ false) × IsApart q slots

unfoldable pub IsRegistered : Hier → List (Option (List (List ℕ))) → Type 0
IsRegistered root [] = Unit
IsRegistered root (none ∷ slots) = IsRegistered root slots
IsRegistered root (some q ∷ slots) =
    (is_nobody (subs_at q (whole root)) ≡ false) × IsApart q slots × IsRegistered root slots

unfoldable pub in_slots : List (List ℕ) → List (Option (List (List ℕ))) → Bool
in_slots p [] = false
in_slots p (none ∷ slots) = in_slots p slots
in_slots p (some q ∷ slots) = path_eq q p || in_slots p slots

clean_path-IsRegistered :
    (addr : ℕ) (q : List (List ℕ)) (root root' : Hier) (slots : List (Option (List (List ℕ))))
    → IsCleaned addr q (whole root) (whole root')
    → IsApart q slots
    → IsRegistered root slots
    → IsRegistered root' slots
unfolding IsApart IsRegistered
clean_path-IsRegistered addr q root root' [] c a h = tt
clean_path-IsRegistered addr q root root' (none ∷ slots) c a h =
    clean_path-IsRegistered addr q root root' slots c a h
clean_path-IsRegistered addr q root root' (some p ∷ slots) c (d, a) (some_leaf, apart, rest) = (
  ap is_nobody (c.elsewhere p d) ∙ some_leaf,
  apart,
  clean_path-IsRegistered addr q root root' slots c a rest,
)

apart_in_slots :
    (q : List (List ℕ)) (slots : List (Option (List (List ℕ))))
    → IsApart q slots
    → in_slots q slots ≡ false
unfolding IsApart in_slots
apart_in_slots q [] a = refl
apart_in_slots q (none ∷ slots) a = apart_in_slots q slots a
apart_in_slots q (some p ∷ slots) (d, a) = rw (path_eq_comm p q, d) (apart_in_slots q slots a)

-- After the loop, the leaves on a path.
after : ℕ → List (Option (List (List ℕ))) → Hier → List (List ℕ) → List Leaf
after addr slots root p =
    if in_slots p slots then without addr (subs_at p (whole root)) else subs_at p (whole root)

after-step :
    (addr : ℕ) (q : List (List ℕ)) (slots : List (Option (List (List ℕ)))) (root root1 : Hier)
    → IsCleaned addr q (whole root) (whole root1)
    → IsApart q slots
    → (p : List (List ℕ)) → after addr slots root1 p ≡ after addr (some q ∷ slots) root p
unfolding after in_slots
after-step addr q slots root root1 c apart p = elim (Bool-cases (path_eq q p)) [
  | inr d ↦ rw (d, c.elsewhere p d) refl
  | inl same ↦
      subst (λ w. after addr slots root1 w ≡ after addr (some q ∷ slots) root w)
        (path_eq→eq q p same) (rw (apart_in_slots q slots apart, path_eq_self q) c.at)
]

clean_slots-after :
    (addr : ℕ) (slots : List (Option (List (List ℕ)))) (root : Hier)
    → IsUnique root
    → IsRegistered root slots
    → (root' : Hier) × (clean_slots addr slots root ≡ some root')
      × ((p : List (List ℕ)) → subs_at p (whole root') ≡ after addr slots root p)
      × IsUnique root'
unfolding clean_slots IsRegistered after in_slots
clean_slots-after addr [] root u h = (root, refl, λ p. refl, u)
clean_slots-after addr (none ∷ slots) root u h = clean_slots-after addr slots root u h
clean_slots-after addr (some q ∷ slots) root u (some_leaf, apart, rest) =
    let (root1, e, c) = clean_path-IsCleaned addr q root u some_leaf in
    let (root2, f, g, v) =
      clean_slots-after addr slots root1 c.unique
        (clean_path-IsRegistered addr q root root1 slots c apart rest) in
    (root2, rw (clean_slots, e) f, λ p. g p ∙ after-step addr q slots root root1 c apart p, v)

-- In a tree in which elements with one parent differ in their topics, and for a client whose entries
-- in context->subs are different and have a leaf each, cleaning the session follows no pointer to an
-- element that is gone. It takes the client's leaf from each filter with an entry, whatever elements
-- are unlinked on the way, leaves the leaves of every other filter, and keeps elements with one parent
-- different; the client has no entries then.
pub subs_clean_session-subscribers :
    (c : Subscriber) (root : Hier) (sub : List ℕ)
    → IsUnique root
    → IsRegistered root c.subs
    → (root' : Hier) × (subs_clean_session c root ≡ some (record c { subs = [] }, root'))
      × (subscribers sub root' ≡ (
          if in_slots (path_of sub) c.subs
          then without c.addr (subscribers sub root)
          else subscribers sub root))
      × IsUnique root'
unfolding subs_clean_session subscribers path_of after
subs_clean_session-subscribers c root sub u h =
    let (root', e, g, v) = clean_slots-after c.addr c.subs root u h in
    (root', rw (subs_clean_session, e) refl, g (path_of sub), v)
