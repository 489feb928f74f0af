-- ===== src/Broker/Admit.antt =====
-- mqtt3_db_message_insert of src/database.c.
use kocom.Prelude.{
  ℕ, ◌+◌, ◌-◌, Bool, true, false, not, ◌&&◌, ◌||◌, Option, none, some, List, [], ◌∷◌, ◌++◌, succ_ℤ,
  ltb, leb, ◌==◌, text_eq, if◌then◌else◌,
}
use kocom.Proto.{
  MsgState, invalid, wait_for_pubrel, queued, state_eq, Direction, md_in, md_out, direction_eq,
  err_success, err_nomem,
}
use kocom.Broker.{
  Stored, ClientMsg, Bridge, Context, Limits, find_stored, change_stored, publish_state,
}

-- Whether the message has already been sent to this client; a NULL among the ids is a fault.
unfoldable pub listed : List ℕ → List (Option (List ℕ)) → Option Bool
listed id [] = some false
listed id (none ∷ ids) = none
listed id (some i ∷ ids) = let rest = listed id ids in if text_eq i id then some true else rest

unfoldable pub sent_before : Limits → Stored → Direction → Bool → List ℕ → Option Bool
sent_before lim stored dir retain id =
    if not lim.allow_duplicate_messages && direction_eq dir md_out && not retain
    then listed id stored.dest_ids
    else some false

-- What mqtt3_db_message_insert decides about a message: its state with the code, that it is not for
-- this queue (code 1), or that the queue is full.
pub data Admission : Type 0 where
  admit : MsgState → ℕ → Admission
  not_qos2 full : Admission

unfoldable pub admission : Limits → Context → Direction → ℕ → Admission
admission lim c dir qos =
    if c.connected
    then (if qos == 0 || lim.max_inflight == 0 || ltb c.msg_count12 lim.max_inflight
        then elim dir [
          | md_out ↦ admit (publish_state qos invalid) 0
          | md_in ↦ if qos == 2 then admit wait_for_pubrel 0 else not_qos2
        ]
        else if lim.max_queued == 0 || ltb (c.msg_count12 - lim.max_inflight) lim.max_queued
        then admit queued 2
        else full)
    else if ltb 0 lim.max_queued && leb lim.max_queued c.msg_count12
    then full
    else admit queued 0

-- Whether the three allocations of mqtt3_db_message_insert succeed.
pub record InsertMem : Type 0 where
  pub malloc : Bool
  pub realloc : Bool
  pub strdup : Bool

abbrev pub is_lazy_bridge : Option Bridge → Bool
is_lazy_bridge none = false
is_lazy_bridge (some b) = b.is_lazy

unfoldable pub append_msg : ClientMsg → Context → Context
append_msg m c = record c {
  msgs = c.msgs ++ (m ∷ []);
  msg_count = c.msg_count + 1;
  msg_count12 = if ltb 0 m.qos then c.msg_count12 + 1 else c.msg_count12;
}

-- A lazy bridge with enough messages is told to reconnect.
unfoldable pub wake_bridge : Context → Context
wake_bridge c = elim c.bridge [
  | none ↦ c
  | some b ↦
      if b.is_lazy && not c.connected && leb b.threshold c.msg_count
      then record c { bridge = some (record b { lazy_reconnect = true }) }
      else c
]

-- The end of mqtt3_db_message_insert: the id of the client is recorded for an outgoing message.
unfoldable pub record_dest :
    InsertMem
    → Limits
    → ℕ
    → Direction
    → Bool
    → List ℕ
    → ℕ
    → List Stored
    → Context
    → ℕ × List Stored × Context
record_dest mem lim addr dir retain id rc store c =
    let add : Option (List ℕ) → List Stored =
      λ entry. change_stored addr (λ s. record s { dest_ids = s.dest_ids ++ (entry ∷ []) }) store in
    if not lim.allow_duplicate_messages && direction_eq dir md_out && not retain
    then (if not mem.realloc
        then (err_nomem, store, c)
        else if not mem.strdup
        then (err_nomem, add none, c)
        else (rc, add (some id), wake_bridge c))
    else (rc, store, wake_bridge c)

-- mqtt3_db_message_insert; `none` is a fault or a failed assertion
unfoldable pub message_insert :
    InsertMem
    → ℕ
    → Limits
    → List Stored
    → Context
    → ℕ
    → Direction
    → ℕ
    → Bool
    → ℕ
    → Option (ℕ × List Stored × Context)
message_insert mem now lim store c mid dir qos retain addr = elim c.id [
  | none ↦ some (err_success, store, c)
  | some id ↦ elim (find_stored addr store) [
    | none ↦ none
    | some stored ↦ elim (sent_before lim stored dir retain id) [
      | none ↦ none
      | some true ↦ some (err_success, store, c)
      | some false ↦
          if not c.connected
            && qos == 0
            && not lim.queue_qos0_messages
            && not (is_lazy_bridge c.bridge)
          then some (2, store, c)
          else elim (admission lim c dir qos) [
            | not_qos2 ↦ some (1, store, c)
            | full ↦ some (2, store, record c { is_dropping = true })
            | admit s rc ↦
                if state_eq s invalid
                then none
                else if not mem.malloc
                then some (err_nomem, store, c)
                else some (
                    record_dest mem lim addr dir retain id rc
                      (change_stored addr (λ x. record x { ref_count = succ_ℤ x.ref_count }) store)
                      (append_msg
                        (record {
                          store = addr;
                          timestamp = now;
                          mid = mid;
                          qos = qos;
                          retain = retain;
                          direction = dir;
                          state = s;
                          dup = false;
                        })
                        c))
          ]
    ]
  ]
]
