-- ===== src/Broker.antt =====
-- The broker's message store and a client's message list: src/database.c, with the structures
-- mosquitto_db, mosquitto_msg_store and mosquitto_client_msg of src/mosquitto_broker.h. The list
-- context->msgs .. context->last_msg is a list here. A pointer to a stored message is its address,
-- a number; an access through an address that is not in the store is a fault. Log messages and the
-- counters of dropped messages are left out; this is the build without web sockets.
pub mod Admit
pub mod Change
pub mod Store
pub mod Keeps
pub mod Delete
pub mod Insert
pub mod Write
pub mod Reset
use kocom.Prelude.{
  ℕ, zero, suc, ◌+◌, ◌-◌, Bool, true, false, not, ◌&&◌, ◌||◌, Option, none, some, List, [], ◌∷◌,
  ◌++◌, ℤ, pos, negsuc, pred_ℤ, succ_ℤ, ltb, leb, ◌==◌, if◌then◌else◌, length, take, drop,
}
use kocom.Proto.{
  MsgState, invalid, publish_qos0, publish_qos1, publish_qos2, wait_for_puback, wait_for_pubrec,
  wait_for_pubrel, wait_for_pubcomp, resend_pubrel, send_pubrec, queued, state_eq, Direction, md_in,
  md_out, direction_eq, ClientState, err_success, err_nomem,
}

-- struct mosquitto_msg_store; an entry of dest_ids is NULL where the copy of the id failed.
pub record Stored : Type 0 where
  pub addr : ℕ
  pub db_id : ℕ
  pub ref_count : ℤ
  pub source_id : List ℕ
  pub source_mid : ℕ
  pub qos : ℕ
  pub retain : Bool
  pub topic : Option (List ℕ)
  pub payload : List ℕ
  pub dest_ids : List (Option (List ℕ))

-- struct mosquitto_client_msg
pub record ClientMsg : Type 0 where
  pub store : ℕ
  pub timestamp : ℕ
  pub mid : ℕ
  pub qos : ℕ
  pub retain : Bool
  pub direction : Direction
  pub state : MsgState
  pub dup : Bool

-- What the functions use of a struct _mqtt3_bridge.
pub record Bridge : Type 0 where
  pub is_lazy : Bool
  pub threshold : ℕ
  pub lazy_reconnect : Bool

-- What the functions use of a struct mosquitto in the broker; `connected` is sock !=
-- INVALID_SOCKET. The counts are numbers of messages.
pub record Context : Type 0 where
  pub id : Option (List ℕ)
  pub connected : Bool
  pub state : ClientState
  pub is_dropping : Bool
  pub bridge : Option Bridge
  pub msgs : List ClientMsg
  pub msg_count : ℕ
  pub msg_count12 : ℕ

-- The variables max_inflight and max_queued, and what the functions use of the configuration.
pub record Limits : Type 0 where
  pub max_inflight : ℕ
  pub max_queued : ℕ
  pub allow_duplicate_messages : Bool
  pub queue_qos0_messages : Bool

-- Following a pointer.
unfoldable pub find_stored : ℕ → List Stored → Option Stored
find_stored addr [] = none
find_stored addr (s ∷ ss) =
    let rest = find_stored addr ss in if s.addr == addr then some s else rest

-- Writing through a pointer, and freeing what it points to.
unfoldable pub change_stored : ℕ → (Stored → Stored) → List Stored → List Stored
change_stored addr f [] = []
change_stored addr f (s ∷ ss) = (if s.addr == addr then f s else s) ∷ change_stored addr f ss

unfoldable pub remove_stored : ℕ → List Stored → List Stored
remove_stored addr [] = []
remove_stored addr (s ∷ ss) =
    let rest = remove_stored addr ss in if s.addr == addr then rest else s ∷ rest

abbrev pub is_zero : ℤ → Bool
is_zero (pos zero) = true
is_zero _ = false

-- mosquitto__db_msg_store_deref; `none` is a fault
unfoldable pub store_deref : ℕ → List Stored → Option (List Stored)
store_deref addr store = elim (find_stored addr store) [
  | none ↦ none
  | some s ↦
      if is_zero (pred_ℤ s.ref_count)
      then some (remove_stored addr store)
      else some (change_stored addr (λ x. record x { ref_count = pred_ℤ x.ref_count }) store)
]

-- The switch over the QoS that makes an outgoing message ready to be sent.
abbrev pub publish_state : ℕ → MsgState → MsgState
publish_state qos s =
    if qos == 0
    then publish_qos0
    else if qos == 1
    then publish_qos1
    else if qos == 2
    then publish_qos2
    else s

-- What a queued message becomes; an incoming one waits in the state `answer`.
unfoldable pub promoted : MsgState → ClientMsg → ClientMsg
promoted answer m = record m {
  state = elim m.direction [
    | md_out ↦ publish_state m.qos m.state
    | md_in ↦ if m.qos == 2 then answer else m.state
  ];
}

-- The loop at the end of _message_remove, whose counter stays 0.
unfoldable pub promote : ℕ → List ClientMsg → List ClientMsg
promote max_inflight [] = []
promote max_inflight (m ∷ ms) =
    let rest = promote max_inflight ms in
    if state_eq m.state queued && ltb 0 max_inflight then promoted send_pubrec m ∷ rest else m ∷ ms

-- _message_remove, for the message `m` between the others: the store and the list that is left, in
-- which the message that follows stands behind as many messages as before.
unfoldable pub remove_between :
    ℕ
    → List Stored
    → List ClientMsg
    → ClientMsg
    → List ClientMsg
    → Option (List Stored × List ClientMsg)
remove_between max_inflight store before m behind = elim (store_deref m.store store) [
  | none ↦ none
  | some store' ↦ some (store', promote max_inflight (before ++ behind))
]

unfoldable pub count_removed : ClientMsg → Context → Context
count_removed m c = record c {
  msg_count = c.msg_count - 1;
  msg_count12 = if ltb 0 m.qos then c.msg_count12 - 1 else c.msg_count12;
}
