-- ===== src/Send/Write/Published.antt =====
-- From the arguments of a publication to the bytes on the socket.
use kocom.Prelude.{
  ℕ, zero, suc, ◌+◌, ◌≤◌, ◌<◌, ◌≡◌, ap, ◌∙◌, Bool, true, false, none, some, List, [], ◌∷◌, ◌++◌,
  append-nil, arith, length, length-append, ◌/◌,
}
use kocom.Proto.{ClientState, err_success, mqtt_max_payload}
use kocom.Packet.{Packet, Allocator, length_bytes}
use kocom.Receive.{is_pending}
use kocom.Send.{packet_queue, ready, send_real_publish, publish_command}
use kocom.Send.Framing.{
  wire, publish_body, body_length, length-publish_body, wire_length, send_real_publish-wire,
}
use kocom.Send.Write.{Link, Tx, queue_and_write}
use kocom.Send.Write.Written.{unsent_all, waiting}
use kocom.Send.Write.Drained.{Open, Lasting, packet_write_drains}

length-length_bytes : (rounds n : ℕ) → length (length_bytes rounds n) ≤ rounds
unfolding length_bytes
length-length_bytes zero n = omega arith
length-length_bytes (suc rounds) n = ground (arith, length-length_bytes rounds (n / 128))

-- A packet that is queued where nothing waits.
queue_and_write-alone :
    (now : ℕ) (state : ClientState) (p : Packet) (l : Link)
    → l.connected ≡ true
    → is_pending state ≡ false
    → p.packet_length ≡ length p.payload
    → length p.payload < 4294967296
    → Open l.net
    → length p.payload ≤ length l.net
    → (left : Tx) × (queue_and_write now state false p
          (record { current = none; out_packet = []; link = l })
        ≡ some (err_success, left))
      × (waiting left ≡ [])
      × (left.link.wire ≡ l.wire ++ p.payload)
unfolding queue_and_write packet_queue unsent_all Lasting
queue_and_write-alone now state p l c s e small o le =
    let t : Tx = record {
      current = none;
      out_packet = record p { pos = 0; to_process = p.packet_length } ∷ [];
      link = l;
    } in
    let whole : 0 + p.packet_length ≡ length p.payload = omega (arith, e) in
    let (left, ended, empty, bytes) =
      packet_write_drains now state t c s (record { whole = whole; small = small }, tt) tt o
        (rw (append-nil p.payload) le) in
    (left, ended, empty, bytes ∙ ap (λ xs. l.wire ++ xs) (append-nil p.payload))

-- Where nothing waits on a connected socket that takes at least one byte at each call, and for as
-- many calls as the packet has bytes, a publication outside callbacks and other threads puts on the
-- socket exactly the bytes of its PUBLISH packet (the command, the remaining length, the topic, the
-- message id if the QoS is not 0, the payload), and nothing is left to be sent. The two allocations
-- succeed, the topic is shorter than 65536 bytes, the remaining length is at most MQTT_MAX_PAYLOAD
-- and the connection is not pending.
pub publish_reaches_socket :
    (now : ℕ) (state : ClientState) (l : Link) (alloc : Allocator) (mid : ℕ)
    (topic payload : List ℕ) (qos : ℕ) (retain dup : Bool) (block : List ℕ)
    → length topic < 65536
    → body_length topic qos payload ≤ mqtt_max_payload
    → alloc.malloc (wire_length (body_length topic qos payload)) ≡ some block
    → l.connected ≡ true
    → is_pending state ≡ false
    → Open l.net
    → length (wire (publish_command dup qos retain) (publish_body topic qos mid payload))
      ≤ length l.net
    → (r : Packet) × (left : Tx) × (send_real_publish alloc true mid topic payload qos retain dup
        ≡ ready r)
      × (queue_and_write now state false r (record { current = none; out_packet = []; link = l })
          ≡ some (err_success, left))
      × (waiting left ≡ [])
      × (left.link.wire
          ≡ l.wire ++ wire (publish_command dup qos retain) (publish_body topic qos mid payload))
unfolding wire
publish_reaches_socket now state l alloc mid topic payload qos retain dup block ht hn hm c s o le =
    let body = publish_body topic qos mid payload in
    let (r, built, bytes, size) =
      send_real_publish-wire alloc mid topic payload qos retain dup block ht hn hm in
    let small : length r.payload < 4294967296 = rw bytes (
      omega (
        arith,
        hn,
        length-length_bytes 5 (length body),
        length-append (length_bytes 5 (length body)) body,
        length-publish_body topic qos mid payload,
      )) in
    let (left, ended, empty, sent) =
      queue_and_write-alone now state r l c s size small o (rw bytes le) in
    (r, left, built, ended, empty, sent ∙ ap (λ xs. l.wire ++ xs) bytes)
