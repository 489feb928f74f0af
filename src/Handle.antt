-- ===== src/Handle.antt =====
-- What the client library does with a packet that has arrived (lib/read_handle.c,
-- lib/read_handle_shared.c, lib/read_handle_client.c), with a message that the program publishes
-- (mosquitto_publish of lib/mosquitto.c), and when time passes (_mosquitto_check_keepalive and
-- _mosquitto_mid_generate of lib/util_mosq.c). All callbacks are taken to be set.
pub mod Exchange
pub mod Within
pub mod Alive
pub mod Publish
pub mod Acked
use kocom.Prelude.{
  ℕ, zero, suc, ◌+◌, ◌-◌, ◌*◌, ◌/◌, ◌%◌, ◌^◌, Bool, true, false, not, ◌&&◌, ◌||◌, Option, none,
  some, List, [], ◌∷◌, ◌++◌, bit_and, ltb, leb, ◌==◌, if◌then◌else◌, length,
}
use kocom.Proto.{
  invalid, wait_for_puback, wait_for_pubrec, wait_for_pubrel, wait_for_pubcomp, md_in, md_out,
  ClientState, cs_connected, cs_disconnecting, err_success, err_nomem, err_protocol, err_inval,
  next_mid, err_no_conn, err_payload_size, cmd_connack, cmd_publish, cmd_puback, cmd_pubrec,
  cmd_pubrel, cmd_pubcomp, cmd_suback, cmd_unsuback, cmd_pingreq, cmd_pingresp, mqtt_max_payload,
}
use kocom.Packet.{
  Packet, Read, got, failed, fault, ◌>>=◌, read_byte, read_bytes, read_uint16, read_string, u32,
}
use kocom.Topic.{pub_topic_check}
use kocom.Client.{
  Message, Event, sent_publish, sent_puback, sent_pubrec, sent_pubrel, sent_pubcomp, sent_pingreq,
  sent_pingresp, on_connect, on_disconnect, on_publish, on_unsubscribe, on_message, on_subscribe,
  Client, send, notify, message_queue, message_remove, message_delete, message_out_update,
}

abbrev pub is_connected : ClientState → Bool
is_connected cs_connected = true
is_connected _ = false

abbrev pub is_disconnecting : ClientState → Bool
is_disconnecting cs_disconnecting = true
is_disconnecting _ = false

-- _mosquitto_mid_generate
unfoldable pub mid_generate : Client → ℕ × Client
mid_generate c = let mid = next_mid c.last_mid in (mid, record c { last_mid = mid })

-- mosquitto_publish; `mem` says whether its allocations succeed. The QoS and the length of the
-- payload are not negative here. A message with QoS 1 or 2 has its state set after it is queued,
-- which is the same as before for the queue.
unfoldable pub publish : ℕ → Bool → Client → List ℕ → List ℕ → ℕ → Bool → ℕ × Client
publish now mem c topic payload qos retain =
    if ltb 2 qos || length topic == 0
    then (err_inval, c)
    else if ltb mqtt_max_payload (length payload)
    then (err_payload_size, c)
    else if not (pub_topic_check (some topic) == err_success)
    then (err_inval, c)
    else (let (mid, c') = mid_generate c in
        let m : Message = record {
          timestamp = now;
          state = invalid;
          dup = false;
          mid = mid;
          topic = topic;
          payload = payload;
          qos = qos;
          retain = retain;
        } in
        let started = record m {
          state =
              if qos == 1 then wait_for_puback else if qos == 2 then wait_for_pubrec else invalid;
        } in
        if qos == 0
        then send (sent_publish m) c'
        else if not mem
        then (err_nomem, c')
        else if (message_queue c' m md_out).0 == 0
        then send (sent_publish started) (message_queue c' started md_out).1
        else (err_success, (message_queue c' m md_out).1))

-- What a handler leaves: the code, the packet and the client; `none` is an access outside the
-- payload.
abbrev pub Handled : Type 0
Handled = Option (ℕ × Packet × Client)

abbrev pub after_read {ℓ} : {A : Type ℓ} → Client → Read A → (A → Packet → Handled) → Handled
after_read c (got a p) f = f a p
after_read c (failed rc p) f = some (rc, p, c)
after_read c fault f = none

unfoldable pub handle_pingreq : Packet → Client → Handled
handle_pingreq p c = let (rc, c') = send sent_pingresp c in some (rc, p, c')

unfoldable pub handle_pingresp : Packet → Client → Handled
handle_pingresp p c = some (err_success, p, record c { ping_t = 0 })

-- PUBACK and PUBCOMP
unfoldable pub handle_pubackcomp : Packet → Client → Handled
handle_pubackcomp p c = after_read c (read_uint16 p) λ mid p'.
    let (rc, c') = message_delete c mid md_out in
    some (err_success, p', if rc == 0 then notify (on_publish mid) c' else c')

unfoldable pub handle_pubrec : ℕ → Packet → Client → Handled
handle_pubrec now p c = after_read c (read_uint16 p) λ mid p'.
    let (rc, c') = message_out_update now c mid wait_for_pubcomp in
    if rc == 0
    then (let (rc', c'') = send (sent_pubrel mid) c' in some (rc', p', c''))
    else some (rc, p', c')

unfoldable pub handle_pubrel : Packet → Client → Handled
handle_pubrel p c =
    if c.mqtt311 && not (bit_and p.command 0x0f == 2)
    then some (err_protocol, p, c)
    else after_read c (read_uint16 p) λ mid p'.
      let (rc, m, c') = message_remove c mid md_in in
      let c'' : Client = elim m [
        | none ↦ c'
        | some msg ↦ if rc == 0 then notify (on_message msg) c' else c'
      ] in
      let (rc', c3) = send (sent_pubcomp mid) c'' in some (rc', p', c3)

-- The loop of _mosquitto_handle_suback, which reads the rest of the payload byte by byte; the fuel
-- is the number of bytes that are left.
unfoldable pub read_granted : ℕ → Packet → Read (List ℕ)
read_granted zero p = got [] p
read_granted (suc fuel) p =
    let rest =
      read_byte p >>= λ qos p'. (read_granted fuel p' >>= λ more p''. got (qos ∷ more) p'') in
    if ltb p.pos p.remaining_length then rest else got [] p

unfoldable pub handle_suback : Bool → Packet → Client → Handled
handle_suback mem p c = after_read c (read_uint16 p) λ mid p'.
    if mem
    then (after_read c (read_granted (p'.remaining_length - p'.pos) p')
        λ granted p''. some (err_success, p'', notify (on_subscribe mid granted) c))
    else some (err_nomem, p', c)

unfoldable pub handle_unsuback : Packet → Client → Handled
handle_unsuback p c =
    after_read c (read_uint16 p) λ mid p'. some (err_success, p', notify (on_unsubscribe mid) c)

unfoldable pub handle_connack : Packet → Client → Handled
handle_connack p c = after_read c (read_byte p) λ _ p₁. after_read c (read_byte p₁) λ result p₂.
    let c' = notify (on_connect result) c in
    if result == 0
    then some (
      err_success,
      p₂,
      if is_disconnecting c'.state then c' else record c' { state = cs_connected },
    )
    else if leb result 5
    then some (5, p₂, c')
    else some (err_protocol, p₂, c')

-- The end of _mosquitto_handle_publish, for a message that has been read.
unfoldable pub deliver : Packet → Client → Message → Handled
deliver p c m =
    if m.qos == 0
    then some (err_success, p, notify (on_message m) c)
    else if m.qos == 1
    then (let (rc, c') = send (sent_puback m.mid) c in some (rc, p, notify (on_message m) c'))
    else if m.qos == 2
    then (let (rc, c') = send (sent_pubrec m.mid) c in
        some (rc, p, (message_queue c' (record m { state = wait_for_pubrel }) md_in).1))
    else some (err_protocol, p, c)

-- Which allocations of a handler succeed: of the message, its topic and its payload in PUBLISH, and of
-- the granted QoS values in SUBACK.
pub record Memory : Type 0 where
  pub message : Bool
  pub topic : Bool
  pub payload : Bool
  pub granted : Bool

-- !strlen(text)
abbrev pub is_blank : List ℕ → Bool
is_blank [] = true
is_blank (b ∷ bs) = b == 0

-- _mosquitto_handle_publish. The length of the payload is remaining_length - pos. The message id of a
-- message with QoS 0 is 0.
unfoldable pub handle_publish : ℕ → Memory → Packet → Client → Handled
handle_publish now mem p c =
    let qos = bit_and p.command 0x06 / 2 in
    let message : ℕ → List ℕ → List ℕ → Message = λ mid topic payload. record {
      timestamp = now;
      state = invalid;
      dup = not (bit_and p.command 0x08 == 0);
      mid = mid;
      topic = topic;
      payload = payload;
      qos = qos;
      retain = not (bit_and p.command 0x01 == 0);
    } in
    if mem.message
    then (after_read c (read_string mem.topic p) λ topic p₁.
        if is_blank topic
        then some (err_protocol, p₁, c)
        else after_read c (if ltb 0 qos then read_uint16 p₁ else got 0 p₁) λ mid p₂.
          let left = p₂.remaining_length - p₂.pos in
          if ltb 0 left
          then (if mem.payload
              then (after_read c (read_bytes left p₂)
                  λ payload p₃. deliver p₃ c (message mid topic payload))
              else some (err_nomem, p₂, c))
          else deliver p₂ c (message mid topic []))
    else some (err_nomem, p, c)

-- _mosquitto_packet_handle of lib/read_handle.c
unfoldable pub packet_handle : ℕ → Memory → Packet → Client → Handled
packet_handle now mem p c =
    let kind = bit_and p.command 0xf0 in
    if kind == cmd_pingreq
    then handle_pingreq p c
    else if kind == cmd_pingresp
    then handle_pingresp p c
    else if kind == cmd_puback || kind == cmd_pubcomp
    then handle_pubackcomp p c
    else if kind == cmd_publish
    then handle_publish now mem p c
    else if kind == cmd_pubrec
    then handle_pubrec now p c
    else if kind == cmd_pubrel
    then handle_pubrel p c
    else if kind == cmd_connack
    then handle_connack p c
    else if kind == cmd_suback
    then handle_suback mem.granted p c
    else if kind == cmd_unsuback
    then handle_unsuback p c
    else some (err_protocol, p, c)

-- _mosquitto_send_pingreq
unfoldable pub send_pingreq : ℕ → Client → ℕ × Client
send_pingreq now c =
    let (rc, c') = send sent_pingreq c in (rc, if rc == 0 then record c' { ping_t = now } else c')

-- _mosquitto_check_keepalive. `now - last >= keepalive` on signed numbers is `last + keepalive <=
-- now`.
unfoldable pub check_keepalive : ℕ → Client → Client
check_keepalive now c =
    if not (c.keepalive == 0)
      && c.connected
      && (leb (c.last_msg_out + c.keepalive) now || leb (c.last_msg_in + c.keepalive) now)
    then (if is_connected c.state && c.ping_t == 0
        then record (send_pingreq now c).1 { last_msg_in = now; last_msg_out = now }
        else notify (on_disconnect (if is_disconnecting c.state then 0 else 1))
            (record c { connected = false }))
    else c
