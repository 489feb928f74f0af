-- ===== src/Examples/Writes.antt =====
-- _mosquitto_packet_write of lib/net_mosq.c at concrete inputs.
use kocom.Prelude.{◌≡◌, refl, true, false, none, some, [], ◌∷◌, ◌++◌, arith, replicate, All}
use kocom.Proto.{cs_connected, err_success}
use kocom.Packet.{Packet, length_bytes}
use kocom.Send.{ready, zero_packet, publish_command, send_real_publish}
use kocom.Send.Framing.{wire, publish_body}
use kocom.Send.Write.{
  advance, push_packet, packet_written, packets_loop, take_current, write_current, takes, again,
  on_disconnect, Link, Tx, packet_write, queue_and_write,
}
use kocom.Send.Write.Written.{Returned, IsSendable, unsent_all, waiting, packet_write-Returned}
use kocom.Send.Write.Drained.{gives_way, Lasting, packet_write_drains}
use kocom.Packet.Frames.{text_bytes}
use kocom.Send.Write.Published.{publish_reaches_socket}
use kocom.Examples.Packets.{zeros}

-- A PINGREQ of which one byte is sent, and a DISCONNECT.
abbrev ping : Packet
ping = record zero_packet {
  command = 0xc0;
  payload = 0xc0 ∷ 0 ∷ [];
  packet_length = 2;
  pos = 1;
  to_process = 1;
}

abbrev bye : Packet
bye = record zero_packet {
  command = 0xe0;
  payload = 0xe0 ∷ 0 ∷ [];
  packet_length = 2;
  to_process = 2;
}

abbrev link : Link
link = record {
  net = takes 9 ∷ takes 1 ∷ takes 5 ∷ [];
  wire = 0xc0 ∷ [];
  connected = true;
  last_msg_out = 0;
  calls = [];
}

abbrev two : Tx
two = record { current = some ping; out_packet = bye ∷ []; link = link }

two-IsSendable : All IsSendable (ping ∷ bye ∷ [])
two-IsSendable = (
  record { whole = refl; small = omega arith },
  (record { whole = refl; small = omega arith }, tt),
)

-- The socket blocks within the DISCONNECT.
abbrev stopped_at : Tx
stopped_at = record two { link = record link { net = takes 9 ∷ takes 1 ∷ again ∷ [] } }

packet_write-Returned_example :
    Returned (0xc0 ∷ []) (0 ∷ 0xe0 ∷ 0 ∷ []) (packet_write 7 cs_connected stopped_at)
unfolding unsent_all
packet_write-Returned_example = packet_write-Returned 7 cs_connected stopped_at two-IsSendable

packet_write_drains_example :
    (left : Tx) × (packet_write 7 cs_connected two ≡ some (err_success, left))
    × (waiting left ≡ [])
    × (left.link.wire ≡ 0xc0 ∷ 0 ∷ 0xe0 ∷ 0 ∷ [])
unfolding unsent_all gives_way Lasting
packet_write_drains_example =
    packet_write_drains 7 cs_connected two refl refl two-IsSendable (refl, tt)
      (refl, (refl, (refl, tt))) (omega arith)

-- The same as a run: the socket is closed and the program is told.
bye_sent :
    packet_write 7 cs_connected two
    ≡ some (
      err_success,
      record {
        current = none;
        out_packet = [];
        link = record {
          net = [];
          wire = 0xc0 ∷ 0 ∷ 0xe0 ∷ 0 ∷ [];
          connected = false;
          last_msg_out = 7;
          calls = on_disconnect 0 ∷ [];
        };
      },
    )
unfolding packet_write write_current take_current packets_loop push_packet advance packet_written
bye_sent = refl

abbrev quick : Link
quick = record link {
  net = takes 1 ∷ takes 1 ∷ takes 1 ∷ takes 1 ∷ takes 1 ∷ takes 1 ∷ [];
  wire = [];
}

publish_reaches_socket_example :
    (r : Packet) × (left : Tx) × (send_real_publish zeros true 0 (97 ∷ []) (5 ∷ []) 0 false false
      ≡ ready r)
    × (queue_and_write 7 cs_connected false r
          (record { current = none; out_packet = []; link = quick })
        ≡ some (err_success, left))
    × (waiting left ≡ [])
    × (left.link.wire
        ≡ [] ++ wire (publish_command false 0 false) (publish_body (97 ∷ []) 0 0 (5 ∷ [])))
unfolding length_bytes gives_way wire publish_body text_bytes
publish_reaches_socket_example =
    publish_reaches_socket 7 cs_connected quick zeros 0 (97 ∷ []) (5 ∷ []) 0 false false
      (replicate 6 0) (omega arith) (omega arith) refl refl refl
      (refl, (refl, (refl, (refl, (refl, (refl, tt)))))) (omega arith)
