-- ===== src/Client.antt =====
-- The client of lib/mosquitto_internal.h (struct mosquitto in the library's build) and its message
-- queues, lib/messages_mosq.c. The lists in_messages and out_messages are lists here; the pointers
-- in_messages_last and out_messages_last are their last elements. The mutexes are left out: each
-- function holds the one that it needs while it works on a queue.
pub mod Unlink
pub mod Restart
pub mod Queues
pub mod Inflight
pub mod Reset
use kocom.Prelude.{
  ℕ, zero, suc, ◌+◌, ◌-◌, Bool, true, false, not, ◌&&◌, ◌||◌, Option, none, some, List, [], ◌∷◌,
  ◌++◌, ℤ, pos, pred_ℤ, succ_ℤ, below, ltb, leb, ◌==◌, if◌then◌else◌, ◌%◌, ◌^◌,
}
use kocom.Proto.{
  MsgState, invalid, wait_for_puback, wait_for_pubrec, wait_for_pubrel, wait_for_pubcomp, state_eq,
  Direction, md_in, md_out, ClientState, err_success, err_not_found,
}

-- struct mosquitto_message_all, with its struct mosquitto_message
pub record Message : Type 0 where
  pub timestamp : ℕ
  pub state : MsgState
  pub dup : Bool
  pub mid : ℕ
  pub topic : List ℕ
  pub payload : List ℕ
  pub qos : ℕ
  pub retain : Bool

-- What the client does that can be seen from outside: packets that it sends and callbacks.
pub data Event : Type 0 where
  sent_publish : Message → Event
  sent_puback sent_pubrec sent_pubrel sent_pubcomp : ℕ → Event
  sent_pingreq sent_pingresp : Event
  on_connect on_disconnect on_publish on_unsubscribe : ℕ → Event
  on_message : Message → Event
  on_subscribe : ℕ → List ℕ → Event

-- `rcs` is what the next calls of the send functions return, which the network decides; 0 where the
-- list has ended. `connected` is mosq->sock != INVALID_SOCKET.
pub record Client : Type 0 where
  pub connected : Bool
  pub state : ClientState
  pub mqtt311 : Bool
  pub keepalive : ℕ
  pub last_mid : ℕ
  pub last_msg_in : ℕ
  pub last_msg_out : ℕ
  pub ping_t : ℕ
  pub message_retry : ℕ
  pub in_messages : List Message
  pub out_messages : List Message
  pub in_queue_len : ℕ
  pub out_queue_len : ℕ
  pub inflight_messages : ℤ
  pub max_inflight_messages : ℕ
  pub rcs : List ℕ
  pub events : List Event

abbrev pub head_rc : List ℕ → ℕ
head_rc [] = err_success
head_rc (rc ∷ rcs) = rc

abbrev pub tail_rcs : List ℕ → List ℕ
tail_rcs [] = []
tail_rcs (rc ∷ rcs) = rcs

-- A call of a send function.
unfoldable pub send : Event → Client → ℕ × Client
send e c = (head_rc c.rcs, record c { rcs = tail_rcs c.rcs; events = c.events ++ (e ∷ []) })

-- A callback.
unfoldable pub notify : Event → Client → Client
notify e c = record c { events = c.events ++ (e ∷ []) }

-- mosq->max_inflight_messages == 0 || mosq->inflight_messages < mosq->max_inflight_messages
abbrev pub has_room : ℤ → ℕ → Bool
has_room inflight max = max == 0 || below inflight max

-- _mosquitto_message_queue: 0, or 1 if the inflight limit has been reached
unfoldable pub message_queue : Client → Message → Direction → ℕ × Client
message_queue c m md_out =
    let c' = record c {
      out_queue_len = c.out_queue_len + 1;
      out_messages = c.out_messages ++ (m ∷ []);
    } in
    if ltb 0 m.qos
    then (if has_room c.inflight_messages c.max_inflight_messages
        then (0, record c' { inflight_messages = succ_ℤ c.inflight_messages })
        else (1, c'))
    else (0, c')
message_queue c m md_in =
    (0, record c { in_queue_len = c.in_queue_len + 1; in_messages = c.in_messages ++ (m ∷ []) })

-- The first message with this id is unlinked.
unfoldable pub unlink : ℕ → List Message → Option (Message × List Message)
unlink mid [] = none
unlink mid (m ∷ ms) =
    let rest = unlink mid ms in
    if m.mid == mid
    then some (m, ms)
    else elim rest [ none ↦ none | some (found, left) ↦ some (found, m ∷ left) ]

-- The state in which a message that had to wait is sent.
abbrev pub start_state : ℕ → MsgState → MsgState
start_state qos s = if qos == 1 then wait_for_puback else if qos == 2 then wait_for_pubrec else s

-- The second loop of _mosquitto_message_remove: messages that wait are sent while there is room.
-- The result is the code, and the list and the client with what has changed; the function's other
-- fields of the client stay.
unfoldable pub restart : List Message → Client → ℕ × List Message × Client
restart [] c = (err_success, [], c)
restart (m ∷ ms) c =
    let m' = record m { state = start_state m.qos m.state } in
    let (rc, c') =
      send (sent_publish m') (record c { inflight_messages = succ_ℤ c.inflight_messages }) in
    let sent = restart ms c' in
    let passed = restart ms c in
    if has_room c.inflight_messages c.max_inflight_messages
    then (if ltb 0 m.qos && state_eq m.state invalid
        then (if rc == 0 then (sent.0, m' ∷ sent.1, sent.2) else (rc, m' ∷ ms, c'))
        else (passed.0, m ∷ passed.1, passed.2))
    else (err_success, m ∷ ms, c)

-- _mosquitto_message_remove: the code, the message that was removed if there is one, the client
unfoldable pub message_remove : Client → ℕ → Direction → ℕ × Option Message × Client
message_remove c mid md_out = elim (unlink mid c.out_messages) [
  | none ↦ (err_not_found, none, c)
  | some (m, left) ↦
      let (rc, ms, c') = restart left (record c {
        out_queue_len = c.out_queue_len - 1;
        inflight_messages = if ltb 0 m.qos then pred_ℤ c.inflight_messages else c.inflight_messages;
      }) in
      (rc, some m, record c' { out_messages = ms })
]
message_remove c mid md_in = elim (unlink mid c.in_messages) [
  | none ↦ (err_not_found, none, c)
  | some (m, left) ↦
      (err_success, some m, record c { in_queue_len = c.in_queue_len - 1; in_messages = left })
]

-- _mosquitto_message_delete: the message is freed if the code is 0
unfoldable pub message_delete : Client → ℕ → Direction → ℕ × Client
message_delete c mid dir = let (rc, m, c') = message_remove c mid dir in (rc, c')

-- _mosquitto_message_cleanup_all
unfoldable pub message_cleanup_all : Client → Client
message_cleanup_all c = record c { in_messages = []; out_messages = [] }

-- _mosquitto_message_out_update, on the list; the time is mosquitto_time()
unfoldable pub update_state : ℕ → ℕ → MsgState → List Message → Option (List Message)
update_state now mid s [] = none
update_state now mid s (m ∷ ms) =
    let rest = update_state now mid s ms in
    if m.mid == mid
    then some (record m { state = s; timestamp = now } ∷ ms)
    else elim rest [ none ↦ none | some ms' ↦ some (m ∷ ms') ]

unfoldable pub message_out_update : ℕ → Client → ℕ → MsgState → ℕ × Client
message_out_update now c mid s = elim (update_state now mid s c.out_messages) [
  | none ↦ (err_not_found, c)
  | some ms ↦ (err_success, record c { out_messages = ms })
]

-- _mosquitto_message_retry_check_actual on one queue: what is resent for a message, if anything
unfoldable pub retry_event : Message → Option Event
retry_event m = elim m.state [
  | wait_for_puback ↦ some (sent_publish m)
  | wait_for_pubrec ↦ some (sent_publish m)
  | wait_for_pubrel ↦ some (sent_pubrec m.mid)
  | wait_for_pubcomp ↦ some (sent_pubrel m.mid)
  | _ ↦ none
]

-- messages->timestamp + mosq->message_retry < now; the codes of the send functions are dropped
unfoldable pub retry_check_actual : ℕ → List Message → Client → List Message × Client
retry_check_actual now [] c = ([], c)
retry_check_actual now (m ∷ ms) c =
    let due = ltb (m.timestamp + c.message_retry) now in
    let m' = record m { timestamp = now; dup = true } in
    let step : Message × Client = elim (retry_event m') [
      | none ↦ (m, c)
      | some e ↦ if due then (m', (send e c).1) else (m, c)
    ] in
    let (ms', c') = retry_check_actual now ms step.1 in (step.0 ∷ ms', c')

unfoldable pub message_retry_check : ℕ → Client → Client
message_retry_check now c =
    let (outs, c') = retry_check_actual now c.out_messages c in
    let (ins, c'') = retry_check_actual now c'.in_messages (record c' { out_messages = outs }) in
    record c'' { in_messages = ins }

unfoldable pub message_retry_set : Client → ℕ → Client
message_retry_set c message_retry = record c { message_retry = message_retry }

unfoldable pub max_inflight_messages_set : Client → ℕ → ℕ × Client
max_inflight_messages_set c max = (err_success, record c { max_inflight_messages = max })

-- The loop of _mosquitto_messages_reconnect_reset over in_messages, from a message that has one
-- before it: the messages that stay and the number of rounds.
unfoldable pub reset_in_rest : List Message → ℕ × List Message
reset_in_rest [] = (0, [])
reset_in_rest (m ∷ ms) =
    let (n, rest) = reset_in_rest ms in
    if m.qos == 2 then (n + 1, record m { timestamp = 0 } ∷ rest) else (n + 1, rest)

-- The same from the head of the list. If the head is removed, the new head becomes `message` and
-- the loop goes on behind it, without a look at it; `none` is the read of NULL->next where there is
-- no new head.
unfoldable pub reset_in : List Message → Option (ℕ × List Message)
reset_in [] = some (0, [])
reset_in (m ∷ ms) =
    if m.qos == 2
    then (let (n, rest) = reset_in_rest ms in some (n + 1, record m { timestamp = 0 } ∷ rest))
    else elim ms [ [] ↦ none | x ∷ xs ↦ let (n, rest) = reset_in_rest xs in some (n + 1, x ∷ rest) ]

-- The loop over out_messages, with inflight_messages counted so far.
unfoldable pub reset_out : ℕ → ℤ → List Message → ℕ × ℤ × List Message
reset_out max inflight [] = (0, inflight, [])
reset_out max inflight (m ∷ ms) =
    let inflight' = if ltb 0 m.qos then succ_ℤ inflight else inflight in
    let (n, total, rest) = reset_out max inflight' ms in
    let s =
      if has_room inflight' max
      then (if m.qos == 1 then wait_for_puback else m.state)
      else invalid in
    (n + 1, total, record m { timestamp = 0; state = s } ∷ rest)

unfoldable pub messages_reconnect_reset : Client → Option Client
messages_reconnect_reset c = elim (reset_in c.in_messages) [
  | none ↦ none
  | some (n, ins) ↦
      let (k, inflight, outs) = reset_out c.max_inflight_messages (pos 0) c.out_messages in
      some (record c {
        in_queue_len = n;
        in_messages = ins;
        out_queue_len = k;
        inflight_messages = inflight;
        out_messages = outs;
      })
]
