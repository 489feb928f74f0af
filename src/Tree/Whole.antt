-- ===== src/Tree/Whole.antt =====
-- mqtt3_db_messages_queue: which subscriptions of the whole tree a message goes to.
use kocom.Prelude.{
  ℕ, ◌≡◌, refl, sym, ap, ◌∙◌, Bool, true, false, ◌&&◌, Option, none, List, [], ◌∷◌, arith, text_eq,
  text_eq→eq, if◌then◌else◌, inl, inr, Bool-cases, All, is_some,
}
use mathlib.Core.Path.{subst}
use kocom.Topic.Levels.{levels_match, is_plain}
use kocom.Topic.Matching.{filter_matches}
use kocom.Tree.{find_child, Leaf, Hier, null, hier, Node, tokenise}
use kocom.Tree.Change.{sub_add, first_token, path_eq, add_leaf}
use kocom.Tree.Paths.{path_of, whole, subs_at, subscribers}
use kocom.Tree.Adding.{sub_add-here, sub_add-elsewhere}
use kocom.Tree.Tokens.{path_eq→eq, tokenise-cons, tokenise-AllPlain}
use kocom.Tree.Meaning.{path_matches, path_match}
use kocom.Tree.Search.{sub_search, is_last}
use kocom.Tree.Walk.{
  IsTidy, walk, walk-none, walk-alike, finish, finish-alike, picked, chosen, search-walk,
}
use kocom.Tree.Tidy.{Fits, hash_last, sub_add-Fits, hash_last-first, plain-hash_last}
use kocom.Tree.Queue.{
  Settings, Publication, World, process_element, prepare, queue_loop, hold, release, messages_queue,
}

-- The elements of the whole tree that a message with these tokens goes to, and with set_retain.
abbrev pub goes_to : List ℕ → List (List ℕ) → List (List ℕ) → Option Bool
unfolding chosen
goes_to t tokens [] = none
goes_to t tokens (u ∷ p) = if text_eq u t then chosen true tokens p else none

-- The tree with the element of the topic, if the message is to be retained.
unfoldable pub prepare_root : Bool → List ℕ → List (List ℕ) → Hier → Hier
prepare_root retain t tokens null = null
prepare_root retain t tokens (hier u subs r ch next) =
    let n = prepare retain t tokens (record { subs = subs; retained = r; children = ch }) in
    let rest = prepare_root retain t tokens next in
    if text_eq u t then hier u n.subs n.retained n.children rest else hier u subs r ch rest

pub prepare-Fits :
    (retain : Bool) (t : List ℕ) (tokens : List (List ℕ)) (n : Node)
    → hash_last (t ∷ tokens) ≡ true
    → Fits t n
    → Fits t (prepare retain t tokens n)
unfolding prepare
prepare-Fits true t tokens n ok h = sub_add-Fits (λ addr. none) 0 none (t ∷ []) t tokens n ok h
prepare-Fits false t tokens n ok h = h

module _ (settings : Settings) (p : Publication) (t k : List ℕ) (ks : List (List ℕ))
    (ok : hash_last (t ∷ k ∷ ks) ≡ true) (plain : All (λ l. is_plain l ≡ true) (k ∷ ks)) where
  -- The children of the root that the topic is below, and the others.
  child_hit :
      (u : List ℕ) (n : Node) (w : Option World)
      → text_eq u t ≡ true
      → IsTidy n.children
      → picked
          (process_element settings p)
          none
          n.subs
          n.retained
          (sub_search (process_element settings p) true (k ∷ ks) n.children w)
        ≡ picked
            (process_element settings p)
            (goes_to t (k ∷ ks) (u ∷ []))
            n.subs
            n.retained
            (walk (process_element settings p) (λ q. goes_to t (k ∷ ks) (u ∷ q)) n.children w)
  unfolding goes_to
  child_hit u n w same tidy =
      let none_here : goes_to t (k ∷ ks) (u ∷ []) ≡ none =
        unfold goes_to chosen levels_match in rw same refl in
      let pick =
        walk-alike (process_element settings p) n.children (λ q. goes_to t (k ∷ ks) (u ∷ q))
          (chosen true (k ∷ ks)) w (λ q. rw same refl) in
      rw none_here (
        ap (picked (process_element settings p) none n.subs n.retained) (
          search-walk (process_element settings p) true (k ∷ ks) n.children w tidy plain
          ∙ sym pick))

  child_miss :
      (u : List ℕ) (subs : List Leaf) (r : Option ℕ) (ch : Hier) (w : Option World)
      → text_eq u t ≡ false
      → picked (process_element settings p) none subs r (ch, w)
        ≡ picked
            (process_element settings p)
            (goes_to t (k ∷ ks) (u ∷ []))
            subs
            r
            (walk (process_element settings p) (λ q. goes_to t (k ∷ ks) (u ∷ q)) ch w)
  unfolding goes_to
  child_miss u subs r ch w differ =
      let none_here : goes_to t (k ∷ ks) (u ∷ []) ≡ none = rw differ refl in
      let pick =
        walk-alike (process_element settings p) ch (λ q. goes_to t (k ∷ ks) (u ∷ q)) (λ q. none) w
          (λ q. rw differ refl) in
      rw none_here (
        ap (picked (process_element settings p) none subs r)
          (sym (pick ∙ walk-none (process_element settings p) ch w)))

  queue_loop-walk :
      (root : Hier) (w : Option World)
      → IsTidy root
      → queue_loop settings p t (k ∷ ks) root w
        ≡ walk
            (process_element settings p)
            (goes_to t (k ∷ ks))
            (prepare_root p.retain t (k ∷ ks) root)
            w
  unfolding queue_loop walk prepare_root IsTidy Fits finish picked
  queue_loop-walk null w h = refl
  queue_loop-walk (hier u subs r ch next) w (first, below, rest) = elim (Bool-cases (text_eq u t)) [
    | inl same ↦
        let n : Node =
          prepare p.retain t (k ∷ ks) (record { subs = subs; retained = r; children = ch }) in
        let fits =
          prepare-Fits p.retain t (k ∷ ks) (record { subs = subs; retained = r; children = ch }) ok
            (rw (← text_eq→eq u t same) first, below) in
        rw same (
          finish-alike (process_element settings p) _ _ u n.subs _ _
            (λ z. queue_loop-walk next z rest) (child_hit u n w same fits.1))
    | inr differ ↦ rw differ (
        finish-alike (process_element settings p) _ _ u subs _ _ (λ z. queue_loop-walk next z rest)
          (child_miss u subs r ch w differ))
  ]

-- The leaves are the same in the tree that has been prepared.
prepare-subs_at :
    (retain : Bool) (t : List ℕ) (tokens us : List (List ℕ)) (n : Node)
    → subs_at us (prepare retain t tokens n) ≡ subs_at us n
unfolding prepare
prepare-subs_at false t tokens us n = refl
prepare-subs_at true t tokens us n = elim (Bool-cases (path_eq tokens us)) [
  | inl same ↦
      subst (λ q. subs_at q (sub_add (λ addr. none) 0 (t ∷ []) none tokens n).1 ≡ subs_at q n)
        (path_eq→eq tokens us same)
        (ap (λ r. r.1) (sub_add-here (λ addr. none) 0 (t ∷ []) none tokens n)
          ∙ unfold add_leaf in refl)
  | inr differ ↦ sub_add-elsewhere (λ addr. none) 0 (t ∷ []) none tokens us n differ
]

pub prepare_root-subs_at :
    (retain : Bool) (t : List ℕ) (tokens : List (List ℕ)) (u : List ℕ) (us : List (List ℕ))
    (root : Hier)
    → subs_at (u ∷ us) (whole (prepare_root retain t tokens root)) ≡ subs_at (u ∷ us) (whole root)
unfolding prepare_root subs_at find_child
prepare_root-subs_at retain t tokens u us null = refl
prepare_root-subs_at retain t tokens u us (hier v s r ch next) =
    let n : Node = record { subs = s; retained = r; children = ch } in
    let kept = prepare-subs_at retain t tokens us n in
    let behind = prepare_root-subs_at retain t tokens u us next in
    elim (Bool-cases (text_eq v t)) [
      | inl same ↦ elim (Bool-cases (text_eq v u)) [
        | inl found ↦ rw (prepare_root, same, subs_at, find_child, found) kept
        | inr other ↦ rw (prepare_root, same, subs_at, find_child, other) behind
      ]
      | inr differ ↦ elim (Bool-cases (text_eq v u)) [
        | inl found ↦ rw (prepare_root, differ, subs_at, find_child, found) refl
        | inr other ↦ rw (prepare_root, differ, subs_at, find_child, other) behind
      ]
    ]

queue_loop-tokens :
    (settings : Settings) (p : Publication) (t : List ℕ) (tokens : List (List ℕ))
    → is_last tokens ≡ false
    → hash_last (t ∷ tokens) ≡ true
    → All (λ l. is_plain l ≡ true) tokens
    → (root : Hier) (w : Option World) → IsTidy root
    → queue_loop settings p t tokens root w
      ≡ walk (process_element settings p) (goes_to t tokens) (prepare_root p.retain t tokens root) w
queue_loop-tokens settings p t [] last ok plain root w tidy = cc
queue_loop-tokens settings p t (k ∷ ks) last ok plain root w tidy =
    queue_loop-walk settings p t k ks ok plain root w tidy

goes_to-some :
    (t u : List ℕ) (tokens q : List (List ℕ))
    → is_some (goes_to t tokens (u ∷ q)) ≡ (text_eq u t && levels_match q tokens)
unfolding goes_to chosen
goes_to-some t u tokens q = ground arith

-- For a topic without wildcards and a tree with nothing below a #, publishing is one walk through
-- the whole tree, children first, that processes the elements which goes_to picks by their paths
-- and no other, between taking and releasing a reference to the message. The walk picks the element
-- of a filter just if the filter matches the topic by the rules of MQTT, and the tree that it goes
-- through, which has the element of a topic with a retained message, has the same leaves as before
-- for every filter.
pub messages_queue-walk :
    (settings : Settings) (p : Publication) (root : Hier) (w : World) (sub : List ℕ)
    → is_plain p.topic ≡ true
    → IsTidy root
    → let tokens = tokenise p.topic in
      let t = first_token tokens in
      let ready = prepare_root p.retain t tokens root in
      let walked = walk (process_element settings p) (goes_to t tokens) ready (hold p.stored w) in
      (messages_queue settings p root w ≡ (walked.0, release p.stored walked.1))
      × (is_some (goes_to t tokens (path_of sub)) ≡ filter_matches sub p.topic)
      × (subscribers sub ready ≡ subscribers sub root)
unfolding messages_queue subscribers path_of goes_to path_matches
messages_queue-walk settings p root w sub plain tidy =
    let tokens = tokenise p.topic in
    let (k, ks, e) = tokenise-cons p.topic in
    let some_token : is_last tokens ≡ false = rw e refl in
    let last = hash_last-first p.topic (plain-hash_last tokens (tokenise-AllPlain p.topic plain)) in
    (
      ap (λ r. (r.0, release p.stored r.1))
          (queue_loop-tokens settings p (first_token tokens) tokens some_token last
            (tokenise-AllPlain p.topic plain) root (hold p.stored w) tidy),
      goes_to-some (first_token tokens) (first_token (tokenise sub)) tokens (tokenise sub)
          ∙ path_match sub p.topic,
      prepare_root-subs_at p.retain (first_token tokens) tokens _ _ root,
    )
