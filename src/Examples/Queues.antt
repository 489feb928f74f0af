-- ===== src/Examples/Queues.antt =====
-- The client's queues and handlers at concrete inputs.
use kocom.Prelude.{
  ℕ, inl, ◌++◌, ◌≤◌, ◌⊎◌, take, if◌then◌else◌, inr, ◌≡◌, refl, true, false, some, [], ◌∷◌, arith,
  pos,
}
use mathlib.Core.List.{map}
use kocom.Proto.{
  MsgState, invalid, wait_for_puback, wait_for_pubrec, wait_for_pubrel, cs_connected, md_out,
}
use kocom.Packet.{Packet, read_uint16, next_byte}
use kocom.Packet.Bounds.{IsReadable}
use kocom.Send.{zero_packet}
use kocom.Client.{
  on_publish, has_room, sent_publish, Message, Client, Event, sent_pubrec, sent_pubcomp,
  sent_pingreq, on_message, on_disconnect, unlink, message_remove, messages_reconnect_reset,
  head_rc, tail_rcs,
}
use kocom.Client.Queues.{IsValid, message_remove-IsValid}
use kocom.Client.Inflight.{Counts, active, message_remove-Counts}
use kocom.Client.Reset.{rested, contents, messages_reconnect_reset-IsValid}
use kocom.Handle.{
  handle_pubackcomp, deliver, handle_pubrel, packet_handle, Memory, publish, check_keepalive,
  handle_pingresp,
}
use kocom.Handle.Within.{Sound, packet_handle-Sound}
use kocom.Handle.Acked.{handle_pubackcomp_reported, mids, publishes, in_wait, all_sent}
use kocom.Handle.Exchange.{deliver-handle_pubrel}
use kocom.Handle.Publish.{IsSafe, publish-IsSafe}
use kocom.Handle.Alive.{check_keepalive_detects}

abbrev message : ℕ → ℕ → MsgState → Message
message mid qos s = record {
  timestamp = 1;
  state = s;
  dup = false;
  mid = mid;
  topic = 97 ∷ [];
  payload = 1 ∷ 2 ∷ [];
  qos = qos;
  retain = false;
}

-- Two messages go out, of which one waits for room; one with QoS 2 has come in.
abbrev busy : Client
busy = record {
  connected = true;
  state = cs_connected;
  mqtt311 = true;
  keepalive = 60;
  last_mid = 65535;
  last_msg_in = 100;
  last_msg_out = 130;
  ping_t = 0;
  message_retry = 20;
  in_messages = message 9 2 wait_for_pubrel ∷ [];
  out_messages = message 1 1 wait_for_puback ∷ message 2 2 invalid ∷ [];
  in_queue_len = 1;
  out_queue_len = 2;
  inflight_messages = pos 1;
  max_inflight_messages = 1;
  rcs = [];
  events = [];
}

abbrev busy-IsValid : IsValid busy
busy-IsValid = record { in_len = refl; out_len = refl; ins = (refl, tt) }

busy-Counts : Counts busy
unfolding active
busy-Counts = record {
  exact = refl;
  limited = inr (omega arith);
  qos = (omega arith, (omega arith, tt));
}

message_remove-IsValid_example : IsValid (message_remove busy 1 md_out).2
message_remove-IsValid_example = message_remove-IsValid busy 1 md_out busy-IsValid

message_remove-Counts_example : Counts (message_remove busy 1 md_out).2
unfolding unlink
message_remove-Counts_example =
    message_remove-Counts busy 1 (message 1 1 wait_for_puback) (message 2 2 invalid ∷ []) refl refl
      busy-Counts

messages_reconnect_reset-IsValid_example :
    (c' : Client) × (messages_reconnect_reset busy ≡ some c')
    × IsValid c'
    × (c'.in_messages ≡ map rested busy.in_messages)
    × (map contents c'.out_messages ≡ map contents busy.out_messages)
messages_reconnect_reset-IsValid_example = messages_reconnect_reset-IsValid busy busy-IsValid

-- A PUBREL for the message 9.
abbrev pubrel_9 : Packet
pubrel_9 = record zero_packet { payload = 0 ∷ 9 ∷ []; remaining_length = 2; command = 0x62 }

pubrel_9-IsReadable : IsReadable pubrel_9
pubrel_9-IsReadable = record {
  whole = refl;
  within = omega arith;
  small = omega arith;
  bytes = (omega arith, (omega arith, tt));
}

abbrev all_memory : Memory
all_memory = record { message = true; topic = true; payload = true; granted = true }

packet_handle-Sound_example : Sound (packet_handle 140 all_memory pubrel_9 busy)
packet_handle-Sound_example =
    packet_handle-Sound 140 all_memory pubrel_9 busy pubrel_9-IsReadable busy-IsValid

abbrev idle : Client
idle = record busy { in_messages = []; in_queue_len = 0 }

deliver-handle_pubrel_example :
    (d e : Client) × (deliver zero_packet idle (message 9 2 invalid) ≡ some (0, zero_packet, d))
    × (d.events ≡ sent_pubrec 9 ∷ [])
    × (handle_pubrel pubrel_9 d ≡ some (head_rc d.rcs, record pubrel_9 { pos = 2 }, e))
    × (e.events ≡ sent_pubrec 9 ∷ on_message (message 9 2 wait_for_pubrel) ∷ sent_pubcomp 9 ∷ [])
    × (e.in_messages ≡ [])
    × (e.in_queue_len ≡ 0)
unfolding read_uint16 next_byte
deliver-handle_pubrel_example =
    deliver-handle_pubrel zero_packet pubrel_9 (record pubrel_9 { pos = 2 }) idle
      (message 9 2 invalid) refl tt refl refl

publish-IsSafe_example : IsSafe (publish 140 true busy (97 ∷ []) (7 ∷ []) 2 false).1
publish-IsSafe_example =
    publish-IsSafe 140 true busy (97 ∷ []) (7 ∷ []) 2 false (busy-IsValid, busy-Counts)

abbrev pingresp : Packet
pingresp = record zero_packet { command = 0xd0 }

-- Nothing has come in since 100, so a ping is due at 170, and an answer to it at 230.
check_keepalive_detects_example :
    (pinged : Client) × (answered : Client) × (check_keepalive 170 busy ≡ pinged)
    × (pinged.connected ≡ true)
    × (pinged.events ≡ sent_pingreq ∷ [])
    × (check_keepalive 200 pinged ≡ pinged)
    × ((check_keepalive 240 pinged).connected ≡ false)
    × ((check_keepalive 240 pinged).events ≡ pinged.events ++ (on_disconnect 1 ∷ []))
    × (handle_pingresp pingresp pinged ≡ some (0, pingresp, answered))
    × ((check_keepalive 240 answered).connected ≡ true)
    × ((check_keepalive 240 answered).events ≡ pinged.events ++ (sent_pingreq ∷ []))
check_keepalive_detects_example =
    check_keepalive_detects 170 200 240 pingresp busy (λ e. absurd (omega arith))
      (λ e. absurd (omega arith)) refl refl refl refl (inl (omega arith)) (omega arith)
      (omega arith)

-- A PUBACK for the message 1.
abbrev puback_1 : Packet
puback_1 = record zero_packet { payload = 0 ∷ 1 ∷ []; remaining_length = 2; command = 0x40 }

-- The message that waits is sent, which fails.
handle_pubackcomp_reported_example :
    (d : Client) × (n : ℕ) × (handle_pubackcomp puback_1 (record busy { rcs = 14 ∷ [] })
      ≡ some (0, record puback_1 { pos = 2 }, d))
    × (mids d.out_messages ≡ 2 ∷ [])
    × (n ≤ 1)
    × (d.events
        ≡ publishes (take n (message 2 2 wait_for_pubrec ∷ []))
          ++ (if all_sent n (14 ∷ []) then on_publish 1 ∷ [] else []))
    × ((all_sent n (14 ∷ []) ≡ false)
        ⊎ (has_room d.inflight_messages d.max_inflight_messages ≡ false)
        ⊎ (n ≡ 1))
unfolding read_uint16 next_byte unlink in_wait mids
handle_pubackcomp_reported_example =
    handle_pubackcomp_reported puback_1 (record puback_1 { pos = 2 })
      (record busy { rcs = 14 ∷ [] }) 1 (message 1 1 wait_for_puback) (message 2 2 invalid ∷ [])
      refl refl

-- Once the first message is acknowledged, the second one is sent.
second_starts : (message_remove busy 1 md_out).2.out_messages ≡ message 2 2 wait_for_pubrec ∷ []
unfolding message_remove unlink kocom.Client.restart kocom.Client.send
second_starts = refl
