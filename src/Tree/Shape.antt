-- ===== src/Tree/Shape.antt =====
-- Publishing changes only what is retained: the tree without that.
use kocom.Prelude.{
  ℕ, ◌≡◌, refl, sym, ap, ◌∙◌, Bool, true, false, not, ◌&&◌, ◌||◌, Option, none, some, List, [], ◌∷◌,
  arith, text_eq, text_eq→eq, if◌then◌else◌, inl, inr, Bool-cases, Option-cases,
}
use kocom.Topic.{plus}
use kocom.Tree.{Leaf, Hier, null, hier, Node, find_child, tokenise, is_null}
use kocom.Tree.Change.{first_token}
use kocom.Tree.Paths.{whole, subs_at, subscribers, IsUnique}
use kocom.Tree.Adding.{sub_add-IsUnique}
use kocom.Tree.Search.{Process, sub_search}
use kocom.Tree.Walk.{IsTidy}
use kocom.Tree.Tidy.{Fits, hash_last, hash_last-first, plain-hash_last}
use kocom.Tree.Tokens.{tokenise-AllPlain}
use kocom.Topic.Levels.{is_plain}
use kocom.Tree.Queue.{
  Settings, Publication, World, process_element, prepare, queue_loop, messages_queue,
}
use kocom.Tree.Whole.{prepare_root, prepare-Fits, prepare_root-subs_at}

unfoldable pub bare : Hier → Hier
bare null = null
bare (hier t subs r ch next) = hier t subs none (bare ch) (bare next)

bare-choice :
    (test : Bool) (x y f : Hier)
    → bare x ≡ bare f
    → bare y ≡ bare f
    → bare (if test then x else y) ≡ bare f
bare-choice true x y f h k = h
bare-choice false x y f h k = k

hier-alike :
    (t : List ℕ) (subs : List Leaf) (c c' n n' : Hier)
    → c ≡ c'
    → n ≡ n'
    → hier t subs none c n ≡ hier t subs none c' n'
hier-alike t subs c c' n n' e f = cc

search-bare :
    {S : Type 0} (process : Process S) (sr : Bool) (tokens : List (List ℕ)) (f : Hier) (s : S)
    → bare (sub_search process sr tokens f s).0 ≡ bare f
unfolding sub_search bare
search-bare process sr tokens null s = refl
search-bare process sr [] (hier t subs r ch next) s =
    hier-alike t subs _ _ _ _ refl (search-bare process sr [] next _)
search-bare process sr (k ∷ ks) (hier t subs r ch next) s =
    hier-alike t subs _ _ _ _
      (bare-choice (text_eq t k || text_eq t (plus ∷ [])) _ ch ch
        (search-bare process (sr && not (text_eq t (plus ∷ []))) ks ch s) refl)
      (search-bare process sr (k ∷ ks) next _)

queue_loop-bare :
    (settings : Settings) (p : Publication) (t : List ℕ) (tokens : List (List ℕ)) (f : Hier)
    (w : Option World)
    → bare (queue_loop settings p t tokens f w).0 ≡ bare (prepare_root p.retain t tokens f)
unfolding queue_loop prepare_root bare
queue_loop-bare settings p t tokens null w = refl
queue_loop-bare settings p t tokens (hier u subs r ch next) w = elim (Bool-cases (text_eq u t)) [
  | inl hit ↦
      rw (queue_loop, prepare_root, hit)
        (hier-alike u _ _ _ _ _ (search-bare (process_element settings p) true tokens _ w)
          (queue_loop-bare settings p t tokens next _))
  | inr miss ↦
      rw (queue_loop, prepare_root, miss)
        (hier-alike u subs _ _ _ _ refl (queue_loop-bare settings p t tokens next w))
]

-- What does not look at what is retained.
abbrev bare_node : Node → Node
unfolding bare
bare_node n = record { subs = n.subs; retained = none; children = bare n.children }

find_child-bare :
    (t : List ℕ) (f : Hier)
    → find_child t (bare f) ≡ (elim (find_child t f) [ none ↦ none | some n ↦ some (bare_node n) ])
unfolding find_child bare bare_node
find_child-bare t null = refl
find_child-bare t (hier u s r ch next) = elim (Bool-cases (text_eq u t)) [
  | inl hit ↦ rw hit refl
  | inr miss ↦ rw miss (find_child-bare t next)
]

subs_at-bare : (p : List (List ℕ)) (n : Node) → subs_at p (bare_node n) ≡ subs_at p n
unfolding subs_at bare_node
subs_at-bare [] n = refl
subs_at-bare (t ∷ p) n = elim (Option-cases (find_child t n.children)) [
  | inl e ↦ rw (subs_at, find_child-bare t n.children, e) refl
  | inr (m, e) ↦ rw (subs_at, find_child-bare t n.children, e) (subs_at-bare p m)
]

-- The two invariants hold of a tree just if they hold of what is left of it.
module _ (t : List ℕ) (f : Hier) where
  bare-missing : find_child t f ≡ none → find_child t (bare f) ≡ none
  bare-missing e = rw (find_child-bare t f, e) refl

  missing-bare : find_child t (bare f) ≡ none → find_child t f ≡ none
  missing-bare e = elim (Option-cases (find_child t f)) [
    | inl n ↦ n
    | inr (m, s) ↦
        let found : find_child t (bare f) ≡ some (bare_node m) = rw (find_child-bare t f, s) refl in
        cc
  ]

IsUnique-bare : (f : Hier) → IsUnique f → IsUnique (bare f)
unfolding IsUnique bare
IsUnique-bare null h = h
IsUnique-bare (hier t subs r ch next) (first, below, rest) =
    (bare-missing t next first, IsUnique-bare ch below, IsUnique-bare next rest)

bare-IsUnique : (f : Hier) → IsUnique (bare f) → IsUnique f
unfolding IsUnique bare
bare-IsUnique null h = h
bare-IsUnique (hier t subs r ch next) (first, below, rest) =
    (missing-bare t next first, bare-IsUnique ch below, bare-IsUnique next rest)

bare-is_null : (f : Hier) → is_null (bare f) ≡ is_null f
unfolding bare
bare-is_null null = refl
bare-is_null (hier t subs r ch next) = refl

IsTidy-bare : (f : Hier) → IsTidy f → IsTidy (bare f)
unfolding IsTidy bare
IsTidy-bare null h = h
IsTidy-bare (hier t subs r ch next) (first, below, rest) =
    (rw (bare-is_null ch) first, IsTidy-bare ch below, IsTidy-bare next rest)

bare-IsTidy : (f : Hier) → IsTidy (bare f) → IsTidy f
unfolding IsTidy bare
bare-IsTidy null h = h
bare-IsTidy (hier t subs r ch next) (first, below, rest) =
    (rw (← bare-is_null ch) first, bare-IsTidy ch below, bare-IsTidy next rest)

-- The tree that has been prepared for a retained message.
find_child-prepare_root :
    (retain : Bool) (t : List ℕ) (tokens : List (List ℕ)) (u : List ℕ) (f : Hier)
    → find_child u f ≡ none
    → find_child u (prepare_root retain t tokens f) ≡ none
unfolding find_child prepare_root
find_child-prepare_root retain t tokens u null h = refl
find_child-prepare_root retain t tokens u (hier v s r ch next) h =
    ground (arith, find_child-prepare_root retain t tokens u next)

prepare-IsUnique :
    (retain : Bool) (t : List ℕ) (tokens : List (List ℕ)) (n : Node)
    → IsUnique n.children
    → IsUnique (prepare retain t tokens n).children
unfolding prepare
prepare-IsUnique true t tokens n h = sub_add-IsUnique (λ addr. none) 0 (t ∷ []) none tokens n h
prepare-IsUnique false t tokens n h = h

prepare_root-IsUnique :
    (retain : Bool) (t : List ℕ) (tokens : List (List ℕ)) (f : Hier)
    → IsUnique f
    → IsUnique (prepare_root retain t tokens f)
unfolding IsUnique prepare_root
prepare_root-IsUnique retain t tokens null h = h
prepare_root-IsUnique retain t tokens (hier u s r ch next) (first, below, rest) =
    let n : Node = record { subs = s; retained = r; children = ch } in
    let first' = find_child-prepare_root retain t tokens u next first in
    let rest' = prepare_root-IsUnique retain t tokens next rest in
    elim (Bool-cases (text_eq u t)) [
      | inl hit ↦ rw (prepare_root, hit) (first', prepare-IsUnique retain t tokens n below, rest')
      | inr miss ↦ rw (prepare_root, miss) (first', below, rest')
    ]

prepare_root-IsTidy :
    (retain : Bool) (t : List ℕ) (tokens : List (List ℕ)) (f : Hier)
    → hash_last (t ∷ tokens) ≡ true
    → IsTidy f
    → IsTidy (prepare_root retain t tokens f)
unfolding IsTidy prepare_root Fits
prepare_root-IsTidy retain t tokens null ok h = h
prepare_root-IsTidy retain t tokens (hier u s r ch next) ok (first, below, rest) =
    let n : Node = record { subs = s; retained = r; children = ch } in
    let rest' = prepare_root-IsTidy retain t tokens next ok rest in
    elim (Bool-cases (text_eq u t)) [
      | inl hit ↦
          let fits = prepare-Fits retain t tokens n ok (rw (← text_eq→eq u t hit) first, below) in
          rw (prepare_root, hit) (rw (text_eq→eq u t hit) fits.0, fits.1, rest')
      | inr miss ↦ rw (prepare_root, miss) (first, below, rest')
    ]

module _ (settings : Settings) (p : Publication) (root : Hier) (w : World) where
  queue-bare :
      bare (messages_queue settings p root w).0
      ≡ bare (prepare_root p.retain (first_token (tokenise p.topic)) (tokenise p.topic) root)
  unfolding messages_queue
  queue-bare = queue_loop-bare settings p _ (tokenise p.topic) root _

  pub messages_queue-subscribers :
      (sub : List ℕ) → subscribers sub (messages_queue settings p root w).0 ≡ subscribers sub root
  unfolding subscribers bare_node
  messages_queue-subscribers sub =
      let at = first_token (tokenise sub) ∷ tokenise sub in
      sym (subs_at-bare at (whole (messages_queue settings p root w).0))
      ∙ ap (λ f. subs_at at (whole f)) queue-bare
      ∙ subs_at-bare at
          (whole (prepare_root p.retain (first_token (tokenise p.topic)) (tokenise p.topic) root))
      ∙ prepare_root-subs_at p.retain _ (tokenise p.topic) _ (tokenise sub) root

  pub messages_queue-IsUnique : IsUnique root → IsUnique (messages_queue settings p root w).0
  messages_queue-IsUnique h =
      bare-IsUnique _ (
        rw queue-bare
          (IsUnique-bare _ (prepare_root-IsUnique p.retain _ (tokenise p.topic) root h)))

  pub messages_queue-IsTidy :
      is_plain p.topic ≡ true → IsTidy root → IsTidy (messages_queue settings p root w).0
  messages_queue-IsTidy plain h =
      let ok =
        hash_last-first p.topic
          (plain-hash_last (tokenise p.topic) (tokenise-AllPlain p.topic plain)) in
      bare-IsTidy _ (
        rw queue-bare (IsTidy-bare _ (prepare_root-IsTidy p.retain _ (tokenise p.topic) root ok h)))
