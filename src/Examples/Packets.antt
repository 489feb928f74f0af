-- ===== src/Examples/Packets.antt =====
-- Packets: lib/net_mosq.c, lib/send_mosq.c and lib/util_mosq.c at concrete inputs.
use kocom.Prelude.{
  ℕ, ◌+◌, ◌≡◌, ◌≢◌, refl, sym, ap, ◌∙◌, true, false, none, some, List, [], ◌∷◌, arith, length,
  replicate, length-replicate, ltb, is_some, if◌then◌else◌,
}
use mathlib.Core.Option.{some-injective}
use kocom.Proto.{cs_connected, err_success, err_payload_size, err_nomem, mqtt_max_payload}
use kocom.Packet.{
  Packet, Allocator, got, read_uint16, read_byte, read_bytes, read_string, length_bytes,
  packet_alloc, next_byte,
}
use kocom.Packet.Bounds.{IsReadable, Stays, readers_stay}
use kocom.Send.{ready, zero_packet, send_real_publish}
use kocom.Send.Framing.{wire, wire_length, packet_alloc_cases}
use kocom.Send.Protocol.{remaining, content, publish_packet, send_real_publish-bytes}
use kocom.Receive.{Rx, chunk, again, packet_read, packet_cleanup}
use kocom.Receive.Stream.{avail}
use kocom.Receive.Acks.{send_command_with_mid-wire}
use kocom.Send.{send_command_with_mid}
use kocom.Receive.Whole.{IsPacket, packet_read_whole}
use kocom.Receive.Total.{packet_read-ne-none}

abbrev pub zeros : Allocator
zeros = record {
  malloc = λ n. some (replicate n 0);
  malloc_length = λ n xs e. ap length (sym (some-injective _ _ e)) ∙ length-replicate n 0;
}

abbrev fresh : Packet
fresh = record zero_packet { remaining_mult = 1 }

-- A PUBACK for the message 5 that arrives in two blocks, with the start of a PINGRESP behind it.
abbrev puback_rx : Rx
puback_rx = record {
  in_packet = fresh;
  last_msg_in = 0;
  net = chunk 0x40 (2 ∷ []) ∷ chunk 0 (5 ∷ 0xd0 ∷ []) ∷ [];
}

abbrev count_packets : Packet → ℕ → ℕ × Packet × ℕ
count_packets p s = (err_success, p, s + 1)

packet_read_whole_example :
    (p : Packet) × (net : List _) × IsPacket p 0x40 (0 ∷ 5 ∷ [])
    × (avail net ≡ 0xd0 ∷ [])
    × (packet_read zeros 7 count_packets true cs_connected puback_rx 3
        ≡ some (record {
          code = err_success;
          rx = record { in_packet = packet_cleanup p; last_msg_in = 7; net = net };
          state = 4;
        }))
unfolding avail wire length_bytes
packet_read_whole_example =
    packet_read_whole zeros 7 count_packets cs_connected puback_rx 3 0x40 (0 ∷ 5 ∷ []) (0xd0 ∷ [])
      (0 ∷ 0 ∷ []) refl
      (record {
        command = refl;
        remaining_count = refl;
        remaining_mult = refl;
        remaining_length = refl;
        payload = refl;
        to_process = refl;
        pos = refl;
      })
      (omega arith) refl refl

packet_read-ne-none_example :
    packet_read zeros 7 count_packets true cs_connected
      (record puback_rx { net = chunk 0x40 [] ∷ again ∷ [] })
      3
    ≢ none
packet_read-ne-none_example =
    packet_read-ne-none zeros 7 count_packets true cs_connected
      (record puback_rx { net = chunk 0x40 [] ∷ again ∷ [] }) 3 refl

-- A payload with a message id, "hi" as a text, and one byte more.
abbrev ack : Packet
ack = record zero_packet { payload = 0 ∷ 2 ∷ 104 ∷ 105 ∷ 9 ∷ []; remaining_length = 5 }

ack-IsReadable : IsReadable ack
ack-IsReadable = record {
  whole = refl;
  within = omega arith;
  small = omega arith;
  bytes = (omega arith, (omega arith, (omega arith, (omega arith, (omega arith, tt)))));
}

readers_stay_example :
    Stays ack (read_byte ack)
    × Stays ack (read_bytes 3 ack)
    × Stays ack (read_uint16 ack)
    × Stays ack (read_string true ack)
readers_stay_example = readers_stay true 3 ack (omega arith) ack-IsReadable

send_real_publish-bytes_example :
    (r : Packet) × (send_real_publish zeros true 5 (97 ∷ []) (1 ∷ 2 ∷ []) 1 false true ≡ ready r)
    × (r.payload ≡ 0x3a ∷ 7 ∷ 0 ∷ 1 ∷ 97 ∷ 0 ∷ 5 ∷ 1 ∷ 2 ∷ [])
    × (r.packet_length ≡ length r.payload)
unfolding length_bytes publish_packet content remaining
send_real_publish-bytes_example =
    send_real_publish-bytes zeros 5 (97 ∷ []) (1 ∷ 2 ∷ []) 1 false true (replicate 9 0)
      (omega arith) (omega arith) (omega arith) (omega arith) refl

-- A rest of 321 bytes has two length bytes.
two_groups : remaining 321 ≡ 193 ∷ 2 ∷ []
unfolding remaining
two_groups = refl

packet_alloc_cases_example : (packet_alloc zeros ack).0 ≡ (
    if ltb mqtt_max_payload 5
    then err_payload_size
    else if is_some (zeros.malloc (wire_length 5))
    then err_success
    else err_nomem)
packet_alloc_cases_example = packet_alloc_cases zeros ack

read_text : read_string true ack ≡ got (104 ∷ 105 ∷ []) (record ack { pos = 4 })
unfolding read_string read_uint16 next_byte
read_text = refl

too_long :
    (packet_alloc zeros (record zero_packet { remaining_length = 268435456 })).0 ≡ err_payload_size
unfolding packet_alloc length_bytes
too_long = refl

-- The body of a PUBREC for the message 300.
abbrev pubrec_300 : Packet
pubrec_300 = record zero_packet { payload = 1 ∷ 44 ∷ []; remaining_length = 2; command = 0x50 }

send_command_with_mid-wire_example :
    (r : Packet) × (send_command_with_mid zeros true 0x50 300 false ≡ ready r)
    × (r.payload ≡ 0x50 ∷ 2 ∷ 1 ∷ 44 ∷ [])
    × (read_uint16 pubrec_300 ≡ got 300 (record pubrec_300 { pos = 2 }))
send_command_with_mid-wire_example =
    send_command_with_mid-wire zeros 0x50 300 false (replicate 4 0) pubrec_300 (omega arith) refl
      (record { command_byte = refl; whole = refl; remaining_length = refl; pos = refl })
