-- ===== src/Examples/Trees.antt =====
-- The tree of subscriptions at concrete inputs: two clients, the filters a/+ and #, the topic a/b.
use kocom.Prelude.{
  All, ℕ, ◌≡◌, refl, true, false, none, some, List, [], ◌∷◌, ◌==◌, if◌then◌else◌, Option, length,
  text_eq, is_some,
}
use kocom.Proto.{cs_connected}
use kocom.Broker.{ClientMsg, find_stored, change_stored, remove_stored, store_deref}
use kocom.Broker.Admit.{
  message_insert, sent_before, listed, admission, append_msg, wake_bridge, record_dest,
}
use kocom.Tree.Search.{sub_search}
use kocom.Topic.Levels.{levels, levels_match, levels_ok, is_plain}
use kocom.Topic.Matching.{filter_matches}
use kocom.Tree.{
  hier, null, Subscriber, Hier, Subscriber, tokenise, find_child, set_child, append_child,
  after_slash, split_loop,
}
use kocom.Tree.Change.{
  mqtt3_sub_add, mqtt3_sub_remove, first_token, add_below, sub_add, add_leaf, resubscribe,
  record_sub,
}
use kocom.Tree.Paths.{path_of, subs_at, subscribers, IsUnique}
use kocom.Tree.Adding.{mqtt3_sub_add-subscribers, added}
use kocom.Tree.Removing.{mqtt3_sub_remove-subscribers, dropped}
use kocom.Tree.Walk.{walk, IsTidy}
use kocom.Tree.Queue.{
  Settings, Publication, World, find_client, messages_queue, process_element, hold, release,
  queue_loop, prepare, subs_process, set_retained, retain_new, to_leaves, leaf_loop, send_to_leaf,
  delivered, effective_qos, set_client,
}
use kocom.Tree.Whole.{messages_queue-walk, prepare_root, goes_to}
use kocom.Tree.Barred.{messages_queue-barred, IsSame}
use kocom.Tree.Retained.{retain_search}
use kocom.Tree.Offers.{Offers, retain_search-Keeps}
use kocom.Tree.Clean.{
  clean_slots, clean_path, clean_at, IsRegistered, IsApart, in_slots, without, subs_clean_session,
  subs_clean_session-subscribers,
}
use kocom.Tree.Reach.{IsReachable, opens, subscribes, cleans, IsReachable-tree, initial_root}
use kocom.Examples.Stores.{stored, limits, enough}

abbrev a_plus : List ℕ
a_plus = 97 ∷ 47 ∷ 43 ∷ []

abbrev everything : List ℕ
everything = 35 ∷ []

abbrev a_b : List ℕ
a_b = 97 ∷ 47 ∷ 98 ∷ []

abbrev subscriber : ℕ → Subscriber
subscriber n = record {
  addr = n;
  mqtt31 = false;
  is_bridge = false;
  last_mid = 0;
  subs = [];
  context = record {
    id = some (n ∷ []);
    connected = true;
    state = cs_connected;
    is_dropping = false;
    bridge = none;
    msgs = [];
    msg_count = 0;
    msg_count12 = 0;
  };
}

-- A client's id is its address, in one letter.
abbrev ids : ℕ → Option (List ℕ)
ids n = some (n ∷ [])

abbrev first_tree : Hier
unfolding mqtt3_sub_add
first_tree = (mqtt3_sub_add ids (some (subscriber 65)) a_plus 1 initial_root).1

abbrev tree : Hier
unfolding mqtt3_sub_add first_tree
tree = (mqtt3_sub_add ids (some (subscriber 66)) everything 0 first_tree).1

-- The second client may not read.
abbrev settings : Settings
settings = record {
  mem = enough;
  now = 5;
  limits = limits;
  upgrade_outgoing_qos = false;
  read_check = λ c topic. if c.addr == 66 then 12 else 0;
}

abbrev publication : Publication
publication = record {
  source_id = some (115 ∷ []);
  topic = a_b;
  qos = 1;
  retain = true;
  stored = 10;
}

abbrev world : World
world = record {
  store = stored 10 1 ∷ [];
  clients = subscriber 65 ∷ subscriber 66 ∷ [];
  persistence_changes = 0;
}

tree-IsReachable : IsReachable tree
unfolding tree first_tree mqtt3_sub_add
tree-IsReachable =
    subscribes ids (some (subscriber 66)) everything 0 (unfold levels levels_ok is_plain in refl) (
      subscribes ids (some (subscriber 65)) a_plus 1 (unfold levels levels_ok is_plain in refl)
        opens)

tree-IsTidy : IsTidy tree
unfolding IsTidy tree first_tree mqtt3_sub_add
tree-IsTidy = (IsReachable-tree tree tree-IsReachable).1

tree-IsUnique : IsUnique tree
unfolding IsUnique tree first_tree mqtt3_sub_add
tree-IsUnique = (IsReachable-tree tree tree-IsReachable).0

mqtt3_sub_add-subscribers_example :
    ((mqtt3_sub_add ids (some (subscriber 66)) everything 0 first_tree).0
      ≡ (added ids (some (subscriber 66)) everything 0 first_tree).0)
    × (subscribers a_plus (mqtt3_sub_add ids (some (subscriber 66)) everything 0 first_tree).1 ≡ (
        if text_eq everything a_plus
        then (added ids (some (subscriber 66)) everything 0 first_tree).1
        else subscribers a_plus first_tree))
mqtt3_sub_add-subscribers_example =
    mqtt3_sub_add-subscribers ids (some (subscriber 66)) everything a_plus 0 first_tree

mqtt3_sub_remove-subscribers_example :
    ((mqtt3_sub_remove (subscriber 65) a_plus tree).0 ≡ (dropped (subscriber 65) a_plus tree).0)
    × (subscribers everything (mqtt3_sub_remove (subscriber 65) a_plus tree).1 ≡ (
        if text_eq a_plus everything
        then (dropped (subscriber 65) a_plus tree).1
        else subscribers everything tree))
mqtt3_sub_remove-subscribers_example =
    mqtt3_sub_remove-subscribers (subscriber 65) a_plus everything tree tree-IsUnique

messages_queue-walk_example :
    let tokens = tokenise a_b in
    let t = first_token tokens in
    let ready = prepare_root true t tokens tree in
    let walked =
      walk (process_element settings publication) (goes_to t tokens) ready (hold 10 world) in
    (messages_queue settings publication tree world ≡ (walked.0, release 10 walked.1))
    × (is_some (goes_to t tokens (path_of a_plus)) ≡ filter_matches a_plus a_b)
    × (subscribers a_plus ready ≡ subscribers a_plus tree)
messages_queue-walk_example =
    messages_queue-walk settings publication tree world a_plus (unfold is_plain in refl) tree-IsTidy

messages_queue-barred_example :
    IsSame 66 (subscriber 66) (messages_queue settings publication tree world).1
messages_queue-barred_example =
    messages_queue-barred settings publication tree world 66 (subscriber 66)
      (unfold find_client in refl) refl

-- The message goes to the first client, whose list then has one message, with the id 1.
abbrev msgs_of : ℕ → Option World → List ClientMsg
unfolding find_client
msgs_of a none = []
msgs_of a (some w) = elim (find_client a w.clients) [ none ↦ [] | some c ↦ c.context.msgs ]

abbrev queued_world : Option World
unfolding messages_queue tree first_tree mqtt3_sub_add
queued_world = (messages_queue settings publication tree world).1

queue_test : (length (msgs_of 65 queued_world) ≡ 1) × (length (msgs_of 66 queued_world) ≡ 0)
unfolding queued_world tree first_tree msgs_of mqtt3_sub_add add_below sub_add add_leaf resubscribe
    record_sub find_child set_child append_child tokenise after_slash split_loop messages_queue
    queue_loop hold release prepare sub_search process_element subs_process set_retained retain_new
    to_leaves leaf_loop send_to_leaf delivered effective_qos find_client set_client message_insert
    sent_before listed admission append_msg wake_bridge record_dest find_stored change_stored
    remove_stored store_deref
queue_test = (refl, refl)

-- Retained messages at a and at b, which have no elements below them.
abbrev letters : List ℕ → List ℕ → Hier
letters x y = hier [] [] none (hier x [] (some 10) null (hier y [] (some 10) null null)) null

abbrev a_hash : List (List ℕ)
a_hash = [] ∷ (97 ∷ []) ∷ everything ∷ []

-- The retained message at a is sent for a/# if a stands last among its siblings, and not if it stands
-- first.
retained_test :
    ((retain_search (λ r s. r ∷ s) a_hash 0 (letters (98 ∷ []) (97 ∷ [])) []).0 ≡ 10 ∷ [])
    × ((retain_search (λ r s. r ∷ s) a_hash 0 (letters (97 ∷ []) (98 ∷ [])) []).0 ≡ [])
    × (levels_match a_hash ([] ∷ (97 ∷ []) ∷ []) ≡ true)
unfolding retain_search levels_match
retained_test = (refl, refl, refl)

letters_offer : Offers (levels_match a_hash) (λ r. r ≡ 10) (letters (97 ∷ []) (98 ∷ []))
unfolding Offers
letters_offer = ((λ m. tt), ((λ m. refl), tt, ((λ m. refl), tt, tt)), tt)

retain_search-Keeps_example :
    All (λ r. r ≡ 10) (retain_search (λ r s. r ∷ s) a_hash 0 (letters (97 ∷ []) (98 ∷ [])) []).0
retain_search-Keeps_example =
    retain_search-Keeps (λ r s. r ∷ s) (λ s. All (λ r. r ≡ 10) s) (λ r. r ≡ 10) (λ r s a h. (a, h))
      a_hash 0 (letters (97 ∷ []) (98 ∷ [])) [] letters_offer tt

-- The first client, with its entry for a/+.
abbrev first_client : Subscriber
unfolding path_of
first_client = record (subscriber 65) { subs = some (path_of a_plus) ∷ [] }

first_client-IsRegistered : IsRegistered tree first_client.subs
unfolding IsRegistered IsApart tree first_tree mqtt3_sub_add add_below sub_add add_leaf resubscribe
    record_sub find_child set_child append_child tokenise after_slash split_loop subs_at path_of
    first_client
first_client-IsRegistered = (refl, tt, tt)

-- The tree once the first client is gone: the element of "a/+" is unlinked with its parent.
abbrev cleaned : Hier
cleaned =
    hier [] [] none
      (hier [] [] none (hier (35 ∷ []) (record { context = 66; qos = 0 } ∷ []) none null null) null)
      (hier (36 ∷ 83 ∷ 89 ∷ 83 ∷ []) [] none null null)

session_cleaned :
    subs_clean_session first_client tree ≡ some (record first_client { subs = [] }, cleaned)
unfolding subs_clean_session clean_slots clean_path clean_at without first_client tree first_tree
    mqtt3_sub_add path_of find_child add_below set_child sub_add append_child after_slash
    kocom.Tree.is_unused kocom.Tree.Change.remove_leaf add_leaf resubscribe kocom.Tree.unlink_child
session_cleaned = refl

IsReachable-tree_example : IsUnique cleaned × IsTidy cleaned
IsReachable-tree_example =
    IsReachable-tree cleaned
      (cleans first_client (record first_client { subs = [] }) session_cleaned tree-IsReachable)

subs_clean_session-subscribers_example :
    (root' : Hier) × (subs_clean_session first_client tree
      ≡ some (record first_client { subs = [] }, root'))
    × (subscribers a_plus root' ≡ (
        if in_slots (path_of a_plus) first_client.subs
        then without first_client.addr (subscribers a_plus tree)
        else subscribers a_plus tree))
    × IsUnique root'
subs_clean_session-subscribers_example =
    subs_clean_session-subscribers first_client tree a_plus tree-IsUnique first_client-IsRegistered
