-- ===== src/Broker/Write.antt =====
-- mqtt3_db_message_write of src/database.c: a client's messages are sent as far as their states ask
-- for it.
pub mod Rounds
pub mod Ends
use kocom.Prelude.{
  ℕ, zero, suc, ◌+◌, ◌*◌, Bool, true, false, not, ◌&&◌, ◌||◌, Option, none, some, List, [], ◌∷◌,
  ◌++◌, ltb, ◌==◌, if◌then◌else◌, length, take, drop, is_some,
}
use kocom.Proto.{
  MsgState, publish_qos0, publish_qos1, publish_qos2, wait_for_puback, wait_for_pubrec,
  wait_for_pubrel, wait_for_pubcomp, resend_pubrel, resend_pubcomp, send_pubrec, queued, state_eq,
  Direction, md_in, direction_eq, ClientState, cs_connected, err_success, err_inval,
}
use kocom.Broker.{Stored, ClientMsg, Context, Limits, find_stored, remove_between, count_removed}

-- A call of a send function: the message id; for PUBLISH also the topic, the payload, and the
-- message's QoS, retain flag and dup flag.
pub data Sent : Type 0 where
  publish_packet : ℕ → Option (List ℕ) → List ℕ → ℕ → Bool → Bool → Sent
  pubrec_packet pubrel_packet pubcomp_packet : ℕ → Sent

-- What the send functions will return, 0 where the list has ended, and what has been sent.
pub record Wire : Type 0 where
  pub rcs : List ℕ
  pub sent : List Sent

unfoldable pub wire_send : Sent → Wire → ℕ × Wire
wire_send e w = (
  elim w.rcs [ [] ↦ err_success | rc ∷ rcs ↦ rc ],
  record { rcs = elim w.rcs [ [] ↦ [] | rc ∷ rcs ↦ rcs ]; sent = w.sent ++ (e ∷ []) },
)

-- What the switch over the state sends, if anything.
unfoldable pub to_send : ClientMsg → Stored → Option Sent
to_send m s =
    let p = publish_packet m.mid s.topic s.payload m.qos m.retain m.dup in
    elim m.state [
      | publish_qos0 ↦ some p
      | publish_qos1 ↦ some p
      | publish_qos2 ↦ some p
      | send_pubrec ↦ some (pubrec_packet m.mid)
      | resend_pubrel ↦ some (pubrel_packet m.mid)
      | resend_pubcomp ↦ some (pubcomp_packet m.mid)
      | _ ↦ none
    ]

-- The message after it has been sent, in the states other than publish_qos0.
unfoldable pub after_send : ℕ → ClientMsg → ClientMsg
after_send now m = elim m.state [
  | publish_qos1 ↦ record m { timestamp = now; dup = true; state = wait_for_puback }
  | publish_qos2 ↦ record m { timestamp = now; dup = true; state = wait_for_pubrec }
  | send_pubrec ↦ record m { state = wait_for_pubrel }
  | resend_pubrel ↦ record m { state = wait_for_pubcomp }
  | resend_pubcomp ↦ record m { state = wait_for_pubrel }
  | _ ↦ m
]

abbrev pub Written : Type 0
Written = Option (ℕ × List Stored × Context × Wire)

-- A queued incoming message that may start now: there is room for it.
abbrev pub may_start : ℕ → ℕ → ClientMsg → Bool
may_start max_inflight count m =
    direction_eq m.direction md_in && (max_inflight == 0 || ltb count max_inflight)

-- The loop, with the messages that it has passed and the count msg_count of incoming ones, and with
-- fuel. `none` is a fault, or the end of the fuel.
unfoldable pub write_loop :
    ℕ → ℕ → ℕ → List ClientMsg → List ClientMsg → ℕ → List Stored → Context → Wire → Written
write_loop fuel now max_inflight before [] count store c w =
    some (err_success, store, record c { msgs = before }, w)
write_loop zero now max_inflight before (m ∷ ms) count store c w = none
write_loop (suc fuel) now max_inflight before (m ∷ ms) count store c w =
    let count' = if direction_eq m.direction md_in then count + 1 else count in
    elim (state_eq m.state queued) [
      | true ↦ elim (may_start max_inflight count' m) [
        | true ↦
            write_loop fuel now max_inflight before
              ((if m.qos == 2 then record m { state = send_pubrec } else m) ∷ ms) count' store c w
        | false ↦ write_loop fuel now max_inflight (before ++ (m ∷ [])) ms count' store c w
      ]
      | false ↦ elim (find_stored m.store store) [
        | none ↦ none
        | some s ↦ elim (to_send m s) [
          | none ↦ write_loop fuel now max_inflight (before ++ (m ∷ [])) ms count' store c w
          | some e ↦ elim ((wire_send e w).0 == 0) [
            | false ↦ some (
              (wire_send e w).0,
              store,
              record c { msgs = before ++ (m ∷ ms) },
              (wire_send e w).1,
            )
            | true ↦ elim (state_eq m.state publish_qos0) [
              | true ↦ elim (remove_between max_inflight store before m ms) [
                | none ↦ none
                | some (store', all) ↦
                    write_loop fuel now max_inflight (take (length before) all)
                      (drop (length before) all) count' store' (count_removed m c) (wire_send e w).1
              ]
              | false ↦
                  write_loop fuel now max_inflight (before ++ (after_send now m ∷ [])) ms count'
                    store c (wire_send e w).1
            ]
          ]
        ]
      ]
    ]

abbrev pub is_connected : ClientState → Bool
is_connected cs_connected = true
is_connected _ = false

-- The fuel is two rounds for each message: a queued one is looked at again after it has started.
unfoldable pub message_write : ℕ → Limits → List Stored → Context → Wire → Written
message_write now lim store c w =
    if not c.connected || (is_connected c.state && not (is_some c.id))
    then some (err_inval, store, c, w)
    else if not (is_connected c.state)
    then some (err_success, store, c, w)
    else write_loop (2 * length c.msgs) now lim.max_inflight [] c.msgs 0 store c w
