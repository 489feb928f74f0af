-- ===== src/Tree/Barred.antt =====
-- A client that may not read a topic, and the bridge that a message comes from, get nothing.
use kocom.Prelude.{
  ℕ, ◌≡◌, refl, sym, ◌∙◌, Bool, true, false, ◌&&◌, ◌||◌, Option, none, some, List, [], ◌∷◌, arith,
  ◌==◌, text_eq, if◌then◌else◌, inl, inr, Bool-cases, Option-cases, ==_iff,
}
use mathlib.Core.Option.{some-injective}
use mathlib.Core.Path.{subst}
use kocom.Proto.{err_acl_denied, err_success}
use kocom.Broker.{Context, Stored, find_stored, store_deref}
use kocom.Tree.{Leaf, Hier, null, hier, Node, Subscriber, tokenise}
use kocom.Tree.Search.{sub_search-Keeps}
use kocom.Tree.Queue.{
  Settings, Publication, World, find_client, delivered, set_client, is_passed_over, send_to_leaf,
  leaf_loop, retain_new, to_leaves, state_of, set_retained, subs_process, process_element, prepare,
  queue_loop, hold, release, messages_queue,
}

-- No message with this publication is for the client.
abbrev pub bars : Settings → Publication → Subscriber → Option (List ℕ) → Bool
bars settings p c none = true
bars settings p c (some source) =
    is_passed_over c source || (settings.read_check c p.topic == err_acl_denied)

abbrev pub is_barred : Settings → Publication → Subscriber → Bool
is_barred settings p c = bars settings p c p.source_id

find_client-addr :
    (a : ℕ) (cs : List Subscriber) (c : Subscriber) → find_client a cs ≡ some c → c.addr ≡ a
unfolding find_client
find_client-addr a [] c h = cc
find_client-addr a (d ∷ cs) c h = elim (Bool-cases (d.addr == a)) [
  | inl here ↦
      let e : d ≡ c = some-injective _ _ (ground arith) in rw (← e) ((==_iff d.addr a).0 here)
  | inr n ↦ find_client-addr a cs c (ground arith)
]

find_client-set :
    (a : ℕ) (d : Subscriber) (cs : List Subscriber)
    → (d.addr == a) ≡ false
    → find_client a (set_client d cs) ≡ find_client a cs
unfolding find_client set_client
find_client-set a d [] n = refl
find_client-set a d (e ∷ cs) n = ground (arith, find_client-set a d cs n)

-- Whatever happens, the client is as it was, unless there is a fault.
pub IsSame : ℕ → Subscriber → Option World → Type 0
IsSame a c none = Unit
IsSame a c (some w) = find_client a w.clients ≡ some c

IsSameWith : ℕ → Subscriber → Option (ℕ × World) → Type 0
IsSameWith a c none = Unit
IsSameWith a c (some (rc, w)) = find_client a w.clients ≡ some c

module _ (settings : Settings) (p : Publication) (source : List ℕ) (a : ℕ) (c : Subscriber)
    (barred : (is_passed_over c source || (settings.read_check c p.topic == err_acl_denied))
      ≡ true) where
  delivered-same :
      (d : Subscriber) (last : ℕ) (w : World) (o : Option (ℕ × List Stored × Context))
      → (d.addr == a) ≡ false
      → find_client a w.clients ≡ some c
      → IsSameWith a c (delivered w d last o)
  unfolding delivered IsSameWith
  delivered-same d last w none n h = tt
  delivered-same d last w (some (rc, store, context)) n h =
      find_client-set a (record d { last_mid = last; context = context }) w.clients n ∙ h

  send_to_leaf-same :
      (l : Leaf) (d : Subscriber) (w : World)
      → (d.addr == a) ≡ false
      → find_client a w.clients ≡ some c
      → IsSameWith a c (send_to_leaf settings p l d w)
  unfolding send_to_leaf
  send_to_leaf-same l d w n h = delivered-same d _ w _ n h

  -- A client that gets the message is another one.
  other :
      (d : Subscriber) (b : ℕ) (cs : List Subscriber)
      → find_client b cs ≡ some d
      → find_client a cs ≡ some c
      → is_passed_over d source ≡ false
      → (settings.read_check d p.topic == err_acl_denied) ≡ false
      → (d.addr == a) ≡ false
  other d b cs e h gets may = elim (Bool-cases (d.addr == a)) [
    | inr n ↦ n
    | inl same ↦
        let at : b ≡ a = sym (find_client-addr b cs d e) ∙ (==_iff d.addr a).0 same in
        let is : d ≡ c = some-injective _ _ (sym (rw (← at) e) ∙ h) in
        let barred_d : (is_passed_over d source
              || (settings.read_check d p.topic == err_acl_denied))
            ≡ true =
          rw is barred in
        absurd (ground (arith, barred_d, gets, may))
  ]

  leaf_loop-same :
      (ls : List Leaf) (rc : ℕ) (w : World)
      → find_client a w.clients ≡ some c
      → IsSameWith a c (leaf_loop settings p source ls rc w)
  unfolding leaf_loop IsSameWith
  leaf_loop-same [] rc w h = h
  leaf_loop-same (l ∷ ls) rc w h = elim (Option-cases (find_client l.context w.clients)) [
    | inl e ↦ rw (leaf_loop, e) tt
    | inr (d, e) ↦ elim (Bool-cases (is_passed_over d source)) [
      | inl over ↦ rw (leaf_loop, e, over) (leaf_loop-same ls rc w h)
      | inr gets ↦ elim (Bool-cases (settings.read_check d p.topic == err_acl_denied)) [
        | inl denied ↦ rw (leaf_loop, e, gets, denied) (leaf_loop-same ls rc w h)
        | inr may ↦ elim (Bool-cases (settings.read_check d p.topic == err_success)) [
          | inr wrong ↦ rw (leaf_loop, e, gets, may, wrong) h
          | inl right ↦
              let d_not : (d.addr == a) ≡ false = other d l.context w.clients e h gets may in
              rw (leaf_loop, e, gets, may, right)
                (elim (Option-cases (send_to_leaf settings p l d w)) [
                  | inl f ↦ rw f tt
                  | inr (r, f) ↦ rw f (
                      leaf_loop-same ls (if r.0 == 1 then 1 else rc) r.1
                        (subst (IsSameWith a c) f (send_to_leaf-same l d w d_not h)))
                ])
        ]
      ]
    ]
  ]

IsSameKept : ℕ → Subscriber → Option (Option ℕ × World) → Type 0
IsSameKept a c none = Unit
IsSameKept a c (some (r, w)) = find_client a w.clients ≡ some c

state_of-IsSame :
    (a : ℕ) (c : Subscriber) (o : Option (ℕ × World)) → IsSameWith a c o → IsSame a c (state_of o)
unfolding IsSame IsSameWith
state_of-IsSame a c none h = tt
state_of-IsSame a c (some r) h = h

module _ (settings : Settings) (p : Publication) (a : ℕ) (c : Subscriber)
    (barred : is_barred settings p c ≡ true) where
  retain_new-same :
      (w : World) (store : List Stored)
      → find_client a w.clients ≡ some c
      → IsSameKept a c (retain_new p w store)
  unfolding retain_new IsSameKept
  retain_new-same w store h = elim (Option-cases (find_stored p.stored store)) [
    | inl e ↦ rw (retain_new, e) tt
    | inr (s, e) ↦ rw (retain_new, e) h
  ]

  set_retained-same :
      (r : Option ℕ) (w : World)
      → find_client a w.clients ≡ some c
      → IsSameKept a c (set_retained p r w)
  unfolding set_retained IsSameKept
  set_retained-same none w h = retain_new-same w w.store h
  set_retained-same (some old) w h = elim (Option-cases (store_deref old w.store)) [
    | inl e ↦ rw (set_retained, e) tt
    | inr (store, e) ↦ rw (set_retained, e) (retain_new-same w store h)
  ]

  to_leaves-IsSame :
      (o : Option (List ℕ)) (subs : List Leaf) (w : World)
      → p.source_id ≡ o
      → find_client a w.clients ≡ some c
      → IsSame a c (state_of (to_leaves settings p o subs w))
  unfolding to_leaves IsSame
  to_leaves-IsSame none subs w e h = h
  to_leaves-IsSame (some source) subs w e h = state_of-IsSame a c _ (
      leaf_loop-same settings p source a c (subst (λ o. bars settings p c o ≡ true) e barred) subs 0
        w h)

  process_element-IsSame :
      (sr : Bool) (subs : List Leaf) (r : Option ℕ) (w : Option World)
      → IsSame a c w
      → IsSame a c (process_element settings p sr subs r w).1
  unfolding process_element IsSame subs_process IsSameKept
  process_element-IsSame sr subs r none h = tt
  process_element-IsSame sr subs r (some w) h = elim (Bool-cases (p.retain && sr)) [
    | inr keep ↦
        rw (process_element, subs_process, keep) (to_leaves-IsSame p.source_id subs w refl h)
    | inl new ↦ elim (Option-cases (set_retained p r w)) [
      | inl e ↦ rw (process_element, subs_process, new, e) tt
      | inr (kept, e) ↦
          rw (process_element, subs_process, new, e)
            (to_leaves-IsSame p.source_id subs kept.1 refl
              (subst (IsSameKept a c) e (set_retained-same r w h)))
    ]
  ]

  queue_loop-IsSame :
      (t : List ℕ) (tokens : List (List ℕ)) (root : Hier) (w : Option World)
      → IsSame a c w
      → IsSame a c (queue_loop settings p t tokens root w).1
  unfolding queue_loop
  queue_loop-IsSame t tokens null w h = h
  queue_loop-IsSame t tokens (hier u subs r ch next) w h =
      let n : Node =
        prepare p.retain t tokens (record { subs = subs; retained = r; children = ch }) in
      let found =
        sub_search-Keeps (process_element settings p) (IsSame a c) process_element-IsSame true
          tokens n.children w h in
      elim (Bool-cases (text_eq u t)) [
        | inl hit ↦ rw (queue_loop, hit) (queue_loop-IsSame t tokens next _ found)
        | inr miss ↦ rw (queue_loop, miss) (queue_loop-IsSame t tokens next w h)
      ]

hold-IsSame :
    (a : ℕ) (c : Subscriber) (addr : ℕ) (w : World)
    → find_client a w.clients ≡ some c
    → IsSame a c (hold addr w)
unfolding hold IsSame
hold-IsSame a c addr w h = elim (Option-cases (find_stored addr w.store)) [
  | inl e ↦ rw (hold, e) tt
  | inr (s, e) ↦ rw (hold, e) h
]

release-IsSame :
    (a : ℕ) (c : Subscriber) (addr : ℕ) (w : Option World)
    → IsSame a c w
    → IsSame a c (release addr w)
unfolding release IsSame
release-IsSame a c addr none h = tt
release-IsSame a c addr (some w) h = elim (Option-cases (store_deref addr w.store)) [
  | inl e ↦ rw (release, e) tt
  | inr (store, e) ↦ rw (release, e) h
]

-- In any tree, a client that the access check denies the topic, a bridge whose id is that of the
-- source, a client without an id, and every client if the source is NULL, is unchanged after
-- publishing, with its list of messages, or else publishing has ended in a fault.
pub messages_queue-barred :
    (settings : Settings) (p : Publication) (root : Hier) (w : World) (a : ℕ) (c : Subscriber)
    → find_client a w.clients ≡ some c
    → is_barred settings p c ≡ true
    → IsSame a c (messages_queue settings p root w).1
unfolding messages_queue
messages_queue-barred settings p root w a c h barred = release-IsSame a c p.stored _ (
    queue_loop-IsSame settings p a c barred _ (tokenise p.topic) root _
      (hold-IsSame a c p.stored w h))
