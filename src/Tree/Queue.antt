-- ===== src/Tree/Queue.antt =====
-- What happens to a message that is published: _subs_process and mqtt3_db_messages_queue of
-- src/subs.c. The state is the store of messages with the clients; mosquitto_acl_check for reading
-- is a parameter here.
use kocom.Prelude.{
  ℕ, ◌+◌, Bool, true, false, ◌&&◌, Option, none, some, List, [], ◌∷◌, succ_ℤ, ltb, ◌==◌, text_eq,
  if◌then◌else◌, length, take,
}
use kocom.Proto.{md_out, err_success, err_acl_denied, next_mid}
use kocom.Broker.{Stored, Context, Limits, find_stored, change_stored, store_deref}
use kocom.Broker.Admit.{InsertMem, message_insert}
use kocom.Tree.{Leaf, Hier, null, hier, Node, Subscriber, tokenise}
use kocom.Tree.Change.{sub_add, first_token}
use kocom.Tree.Search.{sub_search}

-- What the functions use of struct mosquitto_db and change, apart from the tree.
pub record World : Type 0 where
  pub store : List Stored
  pub clients : List Subscriber
  pub persistence_changes : ℕ

-- The rest of what they read: whether allocations succeed, the time, the configuration, and the
-- access check, which returns a code for a client and a topic.
pub record Settings : Type 0 where
  pub mem : InsertMem
  pub now : ℕ
  pub limits : Limits
  pub upgrade_outgoing_qos : Bool
  pub read_check : Subscriber → List ℕ → ℕ

-- The message: mqtt3_db_messages_queue passes on its arguments.
pub record Publication : Type 0 where
  pub source_id : Option (List ℕ)
  pub topic : List ℕ
  pub qos : ℕ
  pub retain : Bool
  pub stored : ℕ

unfoldable pub find_client : ℕ → List Subscriber → Option Subscriber
find_client addr [] = none
find_client addr (c ∷ cs) =
    let rest = find_client addr cs in if c.addr == addr then some c else rest

unfoldable pub set_client : Subscriber → List Subscriber → List Subscriber
set_client c' [] = []
set_client c' (c ∷ cs) =
    let rest = set_client c' cs in if c.addr == c'.addr then c' ∷ cs else c ∷ rest

-- strncmp(topic, "$SYS", 4) is 0
abbrev pub is_sys : List ℕ → Bool
is_sys topic = text_eq (take 4 topic) (36 ∷ 83 ∷ 89 ∷ 83 ∷ [])

-- The message is retained unless its payload is empty; `none` is a fault.
unfoldable pub retain_new : Publication → World → List Stored → Option (Option ℕ × World)
retain_new p w store = elim (find_stored p.stored store) [
  | none ↦ none
  | some s ↦
      let up : Stored → Stored = λ x. record x { ref_count = succ_ℤ x.ref_count } in
      let empty = length s.payload == 0 in
      some (
        (if empty then none else some p.stored),
        record w {
          store = if empty then store else change_stored p.stored up store;
          persistence_changes =
              if is_sys p.topic then w.persistence_changes else w.persistence_changes + 1;
        },
      )
]

-- The first part of _subs_process: what was retained at the element is released.
unfoldable pub set_retained : Publication → Option ℕ → World → Option (Option ℕ × World)
set_retained p none w = retain_new p w w.store
set_retained p (some old) w = elim (store_deref old w.store) [
  | none ↦ none
  | some store ↦ retain_new p w store
]

-- !leaf->context->id || (leaf->context->is_bridge && !strcmp(leaf->context->id, source_id))
abbrev pub is_passed_over : Subscriber → List ℕ → Bool
is_passed_over c source = elim c.context.id [
  | none ↦ true
  | some id ↦ c.is_bridge && text_eq id source
]

unfoldable pub effective_qos : Settings → ℕ → ℕ → ℕ
effective_qos settings qos client_qos =
    if settings.upgrade_outgoing_qos
    then client_qos
    else if ltb client_qos qos
    then client_qos
    else qos

-- The client with its new last_mid, and what mqtt3_db_message_insert has made of it.
unfoldable pub delivered :
    World → Subscriber → ℕ → Option (ℕ × List Stored × Context) → Option (ℕ × World)
delivered w c last none = none
delivered w c last (some (rc, store, context)) = some (
  rc,
  record w {
    store = store;
    clients = set_client (record c { last_mid = last; context = context }) w.clients;
  },
)

-- The message goes to the client of a leaf that may read it: the code of mqtt3_db_message_insert.
unfoldable pub send_to_leaf :
    Settings → Publication → Leaf → Subscriber → World → Option (ℕ × World)
send_to_leaf settings p leaf c w =
    let qos = effective_qos settings p.qos leaf.qos in
    let mid = if qos == 0 then 0 else next_mid c.last_mid in
    let last = if qos == 0 then c.last_mid else mid in
    delivered w c last (
      message_insert settings.mem settings.now settings.limits w.store c.context mid md_out qos
        (c.is_bridge && p.retain) p.stored)

-- The loop over the leaves, with the code so far.
unfoldable pub leaf_loop :
    Settings → Publication → List ℕ → List Leaf → ℕ → World → Option (ℕ × World)
leaf_loop settings p source [] rc w = some (rc, w)
leaf_loop settings p source (l ∷ ls) rc w = elim (find_client l.context w.clients) [
  | none ↦ none
  | some c ↦ elim (is_passed_over c source) [
    | true ↦ leaf_loop settings p source ls rc w
    | false ↦
        let answer = settings.read_check c p.topic in
        elim (answer == err_acl_denied) [
          | true ↦ leaf_loop settings p source ls rc w
          | false ↦ elim (answer == err_success) [
            | false ↦ some (1, w)
            | true ↦ elim (send_to_leaf settings p l c w) [
              | none ↦ none
              | some (inserted, w') ↦
                  leaf_loop settings p source ls (if inserted == 1 then 1 else rc) w'
            ]
          ]
        ]
  ]
]

-- The second part of _subs_process; nothing is done with the leaves if source_id is NULL.
unfoldable pub to_leaves :
    Settings → Publication → Option (List ℕ) → List Leaf → World → Option (ℕ × World)
to_leaves settings p none subs w = some (0, w)
to_leaves settings p (some source) subs w = leaf_loop settings p source subs 0 w

-- _subs_process at an element: what is retained, the code and the state
unfoldable pub subs_process :
    Settings
    → Publication
    → Bool
    → List Leaf
    → Option ℕ
    → World
    → Option (Option ℕ × Option (ℕ × World))
subs_process settings p set_retain subs retained w =
    let kept : Option (Option ℕ × World) =
      if p.retain && set_retain then set_retained p retained w else some (retained, w) in
    elim kept [
      | none ↦ none
      | some (retained', w') ↦ some (retained', to_leaves settings p p.source_id subs w')
    ]

abbrev pub state_of : Option (ℕ × World) → Option World
state_of none = none
state_of (some (rc, w)) = some w

-- _sub_search does not look at the code; after a fault nothing happens.
unfoldable pub process_element :
    Settings → Publication → Bool → List Leaf → Option ℕ → Option World → Option ℕ × Option World
process_element settings p set_retain subs retained none = (retained, none)
process_element settings p set_retain subs retained (some w) =
    elim (subs_process settings p set_retain subs retained w) [
      | none ↦ (retained, none)
      | some (retained', done) ↦ (retained', state_of done)
    ]

-- A retained message needs the element of its topic.
unfoldable pub prepare : Bool → List ℕ → List (List ℕ) → Node → Node
prepare retain t tokens n =
    if retain then (sub_add (λ addr. none) 0 (t ∷ []) none tokens n).1 else n

-- The loop of mqtt3_db_messages_queue over the children of the root.
unfoldable pub queue_loop :
    Settings → Publication → List ℕ → List (List ℕ) → Hier → Option World → Hier × Option World
queue_loop settings p t tokens null w = (null, w)
queue_loop settings p t tokens (hier u subs r ch next) w =
    let n = prepare p.retain t tokens (record { subs = subs; retained = r; children = ch }) in
    let searched = sub_search (process_element settings p) true tokens n.children w in
    let hit = text_eq u t in
    let (next', w') = queue_loop settings p t tokens next (if hit then searched.1 else w) in
    if hit then (hier u n.subs n.retained searched.0 next', w') else (hier u subs r ch next', w')

-- The reference that mqtt3_db_messages_queue holds to the message meanwhile.
unfoldable pub hold : ℕ → World → Option World
hold addr w = elim (find_stored addr w.store) [
  | none ↦ none
  | some s ↦
      let up : Stored → Stored = λ x. record x { ref_count = succ_ℤ x.ref_count } in
      some (record w { store = change_stored addr up w.store })
]

unfoldable pub release : ℕ → Option World → Option World
release addr none = none
release addr (some w) = elim (store_deref addr w.store) [
  | none ↦ none
  | some store ↦ some (record w { store = store })
]

-- mqtt3_db_messages_queue, which returns 0: the tree and the state; `none` is a fault
unfoldable pub messages_queue : Settings → Publication → Hier → World → Hier × Option World
messages_queue settings p root w =
    let tokens = tokenise p.topic in
    let (root', w') = queue_loop settings p (first_token tokens) tokens root (hold p.stored w) in
    (root', release p.stored w')
