-- ===== src/Tree/Change.antt =====
-- _sub_add, mqtt3_sub_add, _sub_remove and mqtt3_sub_remove of src/subs.c.
use kocom.Prelude.{
  ℕ, zero, ◌&&◌, Bool, true, false, Option, none, some, List, [], ◌∷◌, ◌++◌, ℤ, pos, negsuc, ◌==◌,
  text_eq, if◌then◌else◌,
}
use kocom.Tree.{
  Leaf, Hier, hier, Node, Subscriber, tokenise, find_child, set_child, append_child, unlink_child,
  empty_node, is_unused,
}

-- leaf->context->id && !strcmp(leaf->context->id, context->id)
abbrev pub is_id : Option (List ℕ) → List ℕ → Bool
is_id none id = false
is_id (some i) id = text_eq i id

-- The first leaf of a client with this id gets the new QoS; `none` where there is no such leaf. `ids`
-- reads the id of the client that a leaf points to.
unfoldable pub resubscribe : (ℕ → Option (List ℕ)) → List ℕ → ℕ → List Leaf → Option (List Leaf)
resubscribe ids id qos [] = none
resubscribe ids id qos (l ∷ ls) =
    let rest = resubscribe ids id qos ls in
    if is_id (ids l.context) id
    then some (record l { qos = qos } ∷ ls)
    else elim rest [ none ↦ none | some ls' ↦ some (l ∷ ls') ]

-- The element is written to the first slot of context->subs that is NULL, or behind the last one.
unfoldable pub record_sub :
    List (List ℕ) → List (Option (List (List ℕ))) → List (Option (List (List ℕ)))
record_sub at [] = some at ∷ []
record_sub at (none ∷ slots) = some at ∷ slots
record_sub at (some p ∷ slots) = some p ∷ record_sub at slots

-- The end of _sub_add, with no token left, at the element `at`.
unfoldable pub add_leaf :
    (ℕ → Option (List ℕ))
    → ℕ
    → List (List ℕ)
    → Option Subscriber
    → List Leaf
    → (ℤ × Option Subscriber) × List Leaf
add_leaf ids qos at none subs = ((pos 0, none), subs)
add_leaf ids qos at (some c) subs = elim c.context.id [
  | none ↦ ((pos 0, some c), subs)
  | some id ↦ elim (resubscribe ids id qos subs) [
    | some subs' ↦ ((if c.mqtt31 then negsuc 0 else pos 0, some c), subs')
    | none ↦ (
      (pos 0, some (record c { subs = record_sub at c.subs })),
      subs ++ (record { context = c.addr; qos = qos } ∷ []),
    )
  ]
]

-- _sub_add for the element `at`; the code and the client, and what the element holds then
unfoldable pub sub_add :
    (ℕ → Option (List ℕ))
    → ℕ
    → List (List ℕ)
    → Option Subscriber
    → List (List ℕ)
    → Node
    → (ℤ × Option Subscriber) × Node
sub_add ids qos at c [] n =
    let (res, subs) = add_leaf ids qos at c n.subs in (res, record n { subs = subs })
sub_add ids qos at c (t ∷ ts) n = elim (find_child t n.children) [
  | some branch ↦
      let (res, branch') = sub_add ids qos (at ++ (t ∷ [])) c ts branch in
      (res, record n { children = set_child t branch' n.children })
  | none ↦
      let (res, branch') = sub_add ids qos (at ++ (t ∷ [])) c ts empty_node in
      (res, record n { children = append_child n.children t branch' })
]

-- What a function does with the topmost tokens: the first, and all of them.
abbrev pub first_token : List (List ℕ) → List ℕ
first_token [] = []
first_token (t ∷ ts) = t

-- A second subscription is no error.
abbrev pub forgive : ℤ → ℤ
forgive (negsuc zero) = pos 0
forgive rc = rc

-- The search through root->children in mqtt3_sub_add for the first token `t`, and what is done then;
-- the root is its list of children.
unfoldable pub add_below :
    (ℕ → Option (List ℕ))
    → ℕ
    → Option Subscriber
    → List ℕ
    → List (List ℕ)
    → Hier
    → (ℤ × Option Subscriber) × Hier
add_below ids qos c t tokens root = elim (find_child t root) [
  | some child ↦
      let (res, child') = sub_add ids qos (t ∷ []) c tokens child in (res, set_child t child' root)
  | none ↦
      let (res, child') = sub_add ids qos (t ∷ []) c tokens empty_node in
      (res, hier t child'.subs child'.retained child'.children root)
]

-- mqtt3_sub_add
unfoldable pub mqtt3_sub_add :
    (ℕ → Option (List ℕ)) → Option Subscriber → List ℕ → ℕ → Hier → (ℤ × Option Subscriber) × Hier
mqtt3_sub_add ids c sub qos root =
    let tokens = tokenise sub in
    let ((rc, c'), root') = add_below ids qos c (first_token tokens) tokens root in
    ((forgive rc, c'), root')

-- The first leaf that points to the client is freed; `none` where there is no such leaf.
unfoldable pub remove_leaf : ℕ → List Leaf → Option (List Leaf)
remove_leaf addr [] = none
remove_leaf addr (l ∷ ls) =
    let rest = remove_leaf addr ls in
    if l.context == addr then some ls else elim rest [ none ↦ none | some ls' ↦ some (l ∷ ls') ]

abbrev pub path_eq : List (List ℕ) → List (List ℕ) → Bool
path_eq [] [] = true
path_eq (t ∷ ts) (u ∷ us) = text_eq t u && path_eq ts us
path_eq _ _ = false

-- The first slot of context->subs with the element becomes NULL.
unfoldable pub forget_sub :
    List (List ℕ) → List (Option (List (List ℕ))) → List (Option (List (List ℕ)))
forget_sub at [] = []
forget_sub at (none ∷ slots) = none ∷ forget_sub at slots
forget_sub at (some p ∷ slots) =
    let rest = forget_sub at slots in if path_eq p at then none ∷ slots else some p ∷ rest

-- The end of _sub_remove, with no token left, at the element `at`.
unfoldable pub drop_leaf : List (List ℕ) → Subscriber → List Leaf → Subscriber × List Leaf
drop_leaf at c subs = elim (remove_leaf c.addr subs) [
  | none ↦ (c, subs)
  | some subs' ↦ (record c { subs = forget_sub at c.subs }, subs')
]

-- _sub_remove, which returns MOSQ_ERR_SUCCESS
unfoldable pub sub_remove : List (List ℕ) → Subscriber → List (List ℕ) → Node → Subscriber × Node
sub_remove at c [] n = let (c', subs) = drop_leaf at c n.subs in (c', record n { subs = subs })
sub_remove at c (t ∷ ts) n = elim (find_child t n.children) [
  | none ↦ (c, n)
  | some branch ↦
      let (c', branch') = sub_remove (at ++ (t ∷ [])) c ts branch in
      if is_unused branch'
      then (c', record n { children = unlink_child t n.children })
      else (c', record n { children = set_child t branch' n.children })
]

-- The same search in mqtt3_sub_remove; the child of the root stays.
unfoldable pub remove_below : Subscriber → List ℕ → List (List ℕ) → Hier → Subscriber × Hier
remove_below c t tokens root = elim (find_child t root) [
  | none ↦ (c, root)
  | some child ↦
      let (c', child') = sub_remove (t ∷ []) c tokens child in (c', set_child t child' root)
]

-- mqtt3_sub_remove, which returns MOSQ_ERR_SUCCESS
unfoldable pub mqtt3_sub_remove : Subscriber → List ℕ → Hier → Subscriber × Hier
mqtt3_sub_remove c sub root =
    let tokens = tokenise sub in remove_below c (first_token tokens) tokens root
