-- ===== src/Examples/Stores.antt =====
-- The broker's store and message lists at concrete inputs.
use kocom.Prelude.{
  ◌+◌, length, ℕ, ◌≡◌, refl, true, false, none, some, List, [], ◌∷◌, arith, pos, ◌==◌,
  if◌then◌else◌,
}
use kocom.Proto.{publish_qos1, md_in, cs_connected, MsgState, queued, wait_for_puback, md_out}
use kocom.Broker.{Stored, ClientMsg, Context, Limits, find_stored, store_deref}
use kocom.Broker.Admit.{InsertMem, message_insert}
use kocom.Broker.Change.{message_delete, messages_delete}
use kocom.Broker.Write.{
  Wire, publish_packet, message_write, write_loop, wire_send, to_send, after_send,
}
use kocom.Broker.Write.Ends.{message_write-Keeps}
use kocom.Broker.Reset.{message_reconnect_reset, message_reconnect_reset-Keeps}
use kocom.Broker.Reset.Skips.{message_reconnect_reset_skips}
use kocom.Broker.Store.{addrs, Freed, IsTracked, uses, store_deref-IsTracked}
use kocom.Broker.Keeps.{Keeps, qos12}
use kocom.Broker.Delete.{message_delete-Keeps, messages_delete-Keeps}
use kocom.Broker.Insert.Room.{HasRoom, message_insert-Keeps}

abbrev pub stored : ℕ → ℕ → Stored
stored addr n = record {
  addr = addr;
  db_id = addr;
  ref_count = pos n;
  source_id = 115 ∷ [];
  source_mid = 4;
  qos = 1;
  retain = false;
  topic = some (97 ∷ []);
  payload = 1 ∷ [];
  dest_ids = [];
}

abbrev msg : ℕ → ℕ → MsgState → ClientMsg
msg addr mid s = record {
  store = addr;
  timestamp = 1;
  mid = mid;
  qos = 1;
  retain = false;
  direction = md_out;
  state = s;
  dup = false;
}

-- One message is in flight and one is queued; another client has a pointer to the second.
abbrev client : Context
client = record {
  id = some (99 ∷ []);
  connected = true;
  state = cs_connected;
  is_dropping = false;
  bridge = none;
  msgs = msg 10 1 wait_for_puback ∷ msg 11 2 queued ∷ [];
  msg_count = 2;
  msg_count12 = 2;
}

abbrev store : List Stored
store = stored 10 1 ∷ stored 11 2 ∷ []

abbrev others : ℕ → ℕ
others addr = if addr == 11 then 1 else 0

abbrev pub limits : Limits
limits = record {
  max_inflight = 1;
  max_queued = 100;
  allow_duplicate_messages = false;
  queue_qos0_messages = false;
}

abbrev pub enough : InsertMem
enough = record { malloc = true; realloc = true; strdup = true }

client-Keeps : Keeps others store client
unfolding uses find_stored qos12
client-Keeps = record {
  tracked = record { exact = (refl, (refl, tt)); stored = (refl, (refl, tt)) };
  count = refl;
  count12 = refl;
}

store_deref-IsTracked_example :
    (store' : List Stored) × (store_deref 10 store ≡ some store')
    × IsTracked others store' (11 ∷ [])
    × Freed 10 0 store store'
unfolding uses
store_deref-IsTracked_example = store_deref-IsTracked others store 10 (11 ∷ []) client-Keeps.tracked

message_insert-Keeps_example :
    (rc : ℕ) × (store' : List Stored) × (c' : Context) × (message_insert enough 5 limits store
        client 3 md_out 2 false 11
      ≡ some (rc, store', c'))
    × Keeps others store' c'
    × HasRoom limits client c'
unfolding find_stored
message_insert-Keeps_example =
    message_insert-Keeps others enough 5 limits store client 3 md_out 2 false 11 (omega arith) refl
      (tt, (tt, tt)) client-Keeps

message_delete-Keeps_example :
    (store' : List Stored) × (c' : Context) × (message_delete 5 limits store client 1 md_out
      ≡ some (store', c'))
    × Keeps others store' c'
message_delete-Keeps_example =
    message_delete-Keeps others 5 limits store client 1 md_out client-Keeps

messages_delete-Keeps_example :
    (store' : List Stored) × (c' : Context) × (messages_delete store client ≡ some (store', c'))
    × Keeps others store' c'
    × (c'.msgs ≡ [])
messages_delete-Keeps_example = messages_delete-Keeps others store client client-Keeps

abbrev quiet : Wire
quiet = record { rcs = 0 ∷ 7 ∷ []; sent = [] }

message_write-Keeps_example :
    (rc : ℕ) × (store' : List Stored) × (c' : Context) × (w' : Wire) × (message_write 5 limits store
        (record client { msgs = msg 10 1 publish_qos1 ∷ msg 11 2 queued ∷ [] })
        quiet
      ≡ some (rc, store', c', w'))
    × Keeps others store' c'
unfolding qos12
message_write-Keeps_example =
    message_write-Keeps others 5 limits store
      (record client { msgs = msg 10 1 publish_qos1 ∷ msg 11 2 queued ∷ [] }) quiet
      (refl, (refl, tt))
      (record { tracked = client-Keeps.tracked; count = refl; count12 = client-Keeps.count12 })

message_reconnect_reset-Keeps_example :
    (c' : Context) × (message_reconnect_reset limits store (record client { msg_count = 9 })
      ≡ some (store, c'))
    × Keeps others store c'
message_reconnect_reset-Keeps_example =
    message_reconnect_reset-Keeps others limits store (record client { msg_count = 9 })
      (refl, (refl, tt)) client-Keeps.tracked

-- An incoming message with QoS 1 in front of an outgoing one.
abbrev came_in : ClientMsg
came_in = record (msg 10 1 wait_for_puback) { direction = md_in }

message_reconnect_reset_skips_example :
    (store' : List Stored) × (c' : Context) × (message_reconnect_reset limits store
        (record client { msgs = came_in ∷ msg 11 2 wait_for_puback ∷ [] })
      ≡ some (store', c'))
    × IsTracked others store' (addrs c'.msgs)
    × (c'.msg_count + 1 ≡ length c'.msgs)
    × (c'.msg_count12 + 1 ≡ qos12 c'.msgs)
message_reconnect_reset_skips_example =
    message_reconnect_reset_skips others limits store client came_in (msg 11 2 wait_for_puback) []
      refl refl tt client-Keeps.tracked

-- The first message is sent; the second one is queued, and stays so.
written :
    (message_write 5 limits store
      (record client { msgs = msg 10 1 publish_qos1 ∷ msg 11 2 queued ∷ [] })
      quiet)
    ≡ some (
      0,
      store,
      record client {
        msgs =
            record (msg 10 1 wait_for_puback) { timestamp = 5; dup = true } ∷ msg 11 2 queued ∷ [];
      },
      record { rcs = 7 ∷ []; sent = publish_packet 1 (some (97 ∷ [])) (1 ∷ []) 1 false false ∷ [] },
    )
unfolding message_write write_loop wire_send to_send after_send find_stored
written = refl
