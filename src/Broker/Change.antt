-- ===== src/Broker/Change.antt =====
-- The other operations of src/database.c on the store and on the messages of one client: update,
-- deletion, storing, finding and timeouts.
use kocom.Prelude.{
  ℕ, zero, suc, ◌+◌, Bool, true, false, not, ◌&&◌, Option, none, some, List, [], ◌∷◌, ◌++◌, pos,
  ltb, leb, ◌==◌, if◌then◌else◌, length, take, drop,
}
use kocom.Proto.{
  MsgState, invalid, publish_qos1, publish_qos2, wait_for_puback, wait_for_pubrec, wait_for_pubrel,
  wait_for_pubcomp, resend_pubrel, send_pubrec, queued, state_eq, Direction, md_in, direction_eq,
  err_success,
}
use kocom.Broker.{
  Stored, ClientMsg, Context, Limits, find_stored, store_deref, promoted, remove_between,
  count_removed,
}

-- What the functions use of struct mosquitto_db; msg_store_count is the length of the store.
pub record Db : Type 0 where
  pub store : List Stored
  pub last_db_id : ℕ

-- mqtt3_db_message_update
unfoldable pub update_msgs : ℕ → ℕ → Direction → MsgState → List ClientMsg → ℕ × List ClientMsg
update_msgs now mid dir s [] = (1, [])
update_msgs now mid dir s (m ∷ ms) =
    let (rc, rest) = update_msgs now mid dir s ms in
    if m.mid == mid && direction_eq m.direction dir
    then (err_success, record m { state = s; timestamp = now } ∷ ms)
    else (rc, m ∷ rest)

unfoldable pub message_update : ℕ → Context → ℕ → Direction → MsgState → ℕ × Context
message_update now c mid dir s =
    let (rc, ms) = update_msgs now mid dir s c.msgs in (rc, record c { msgs = ms })

-- mqtt3_db_messages_delete
unfoldable pub deref_all : List ClientMsg → List Stored → Option (List Stored)
deref_all [] store = some store
deref_all (m ∷ ms) store = elim (store_deref m.store store) [
  | none ↦ none
  | some store' ↦ deref_all ms store'
]

unfoldable pub messages_delete : List Stored → Context → Option (List Stored × Context)
messages_delete store c = elim (deref_all c.msgs store) [
  | none ↦ none
  | some store' ↦ some (store', record c { msgs = []; msg_count = 0; msg_count12 = 0 })
]

-- The loop of mqtt3_db_message_delete, with the messages before the one that is looked at, the count
-- msg_index, and whether one has been deleted; with fuel. `none` is a fault, or the end of the fuel.
unfoldable pub delete_loop :
    ℕ
    → ℕ
    → ℕ
    → ℕ
    → Direction
    → List ClientMsg
    → ℕ
    → Bool
    → List ClientMsg
    → List Stored
    → Context
    → Option (List Stored × Context)
delete_loop fuel now max_inflight mid dir before index deleted [] store c =
    some (store, record c { msgs = before })
delete_loop zero now max_inflight mid dir before index deleted (m ∷ ms) store c = none
delete_loop (suc fuel) now max_inflight mid dir before index deleted (m ∷ ms) store c =
    let m' : ClientMsg =
      if state_eq m.state queued && leb (index + 1) max_inflight
      then record (promoted wait_for_pubrel m) { timestamp = now }
      else m in
    let kept =
      delete_loop fuel now max_inflight mid dir (before ++ (m' ∷ [])) (index + 1) deleted ms store
        c in
    let gone : Option (List Stored × Context) =
      elim (remove_between max_inflight store before m' ms) [
        | none ↦ none
        | some (store', all) ↦
            let c' = count_removed m' c in
            if ltb max_inflight index
            then some (store', record c' { msgs = all })
            else delete_loop fuel now max_inflight mid dir (take (length before) all) index true
                (drop (length before) all) store' c'
      ] in
    if m.mid == mid && direction_eq m.direction dir
    then gone
    else if ltb max_inflight (index + 1) && deleted
    then some (store, record c { msgs = before ++ (m' ∷ ms) })
    else kept

unfoldable pub message_delete :
    ℕ → Limits → List Stored → Context → ℕ → Direction → Option (List Stored × Context)
message_delete now lim store c mid dir =
    delete_loop (length c.msgs) now lim.max_inflight mid dir [] 0 false c.msgs store c

-- mqtt3_db_message_store, where its allocations succeed: `addr` is the address of the block
unfoldable pub message_store : ℕ → Db → List ℕ → ℕ → Option (List ℕ) → ℕ → List ℕ → Bool → ℕ → Db
message_store addr db source source_mid topic qos payload retain store_id =
    let fresh = store_id == 0 in
    let id = if fresh then db.last_db_id + 1 else store_id in
    record db {
      last_db_id = if fresh then db.last_db_id + 1 else db.last_db_id;
      store =
          record {
            addr = addr;
            db_id = id;
            ref_count = pos 0;
            source_id = source;
            source_mid = source_mid;
            qos = qos;
            retain = retain;
            topic = topic;
            payload = payload;
            dest_ids = [];
          }
          ∷ db.store;
    }

-- mqtt3_db_message_store_find: the address, and the code 1 where there is none; `none` is a fault
unfoldable pub message_store_find : ℕ → List ClientMsg → List Stored → Option (ℕ × Option ℕ)
message_store_find mid [] store = some (1, none)
message_store_find mid (m ∷ ms) store =
    let rest = message_store_find mid ms store in
    elim (find_stored m.store store) [
      | none ↦ none
      | some s ↦
          if s.source_mid == mid && direction_eq m.direction md_in
          then some (err_success, some m.store)
          else rest
    ]

-- mqtt3_db_message_timeout_check on the messages of one client
abbrev pub retry_state : MsgState → MsgState
retry_state wait_for_puback = publish_qos1
retry_state wait_for_pubrec = publish_qos2
retry_state wait_for_pubrel = send_pubrec
retry_state wait_for_pubcomp = resend_pubrel
retry_state _ = invalid

-- timestamp < now - timeout
unfoldable pub timeout_check : ℕ → ℕ → List ClientMsg → List ClientMsg
timeout_check now timeout [] = []
timeout_check now timeout (m ∷ ms) =
    (if ltb (m.timestamp + timeout) now
        && not (state_eq m.state queued)
        && not (state_eq (retry_state m.state) invalid)
      then record m { timestamp = now; state = retry_state m.state; dup = true }
      else m)
    ∷ timeout_check now timeout ms
