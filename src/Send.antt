-- ===== src/Send.antt =====
-- Outgoing packets: lib/send_mosq.c and _mosquitto_packet_queue of lib/net_mosq.c. The logging calls
-- have no effect that is modelled. This is the client library's build (no WITH_BROKER), where
-- _mosquitto_send_publish hands its arguments to _mosquitto_send_real_publish unchanged.
pub mod Framing
pub mod Protocol
pub mod Write
use kocom.Prelude.{
  ℕ, ◌+◌, ◌*◌, ◌≡◌, Bool, true, false, Option, none, some, List, [], ◌∷◌, ◌++◌, pos, bit_or, ltb,
  ◌==◌, if◌then◌else◌, length, ◌^◌, ◌%◌,
}
use kocom.Proto.{
  err_success, err_nomem, err_no_conn, cmd_publish, cmd_puback, cmd_pubrec, cmd_pubrel, cmd_pubcomp,
  cmd_pingreq, cmd_pingresp, cmd_disconnect,
}
use kocom.Packet.{
  Packet, Allocator, u32, packet_alloc, write_byte, write_bytes, write_uint16, write_string, msb,
  lsb, ◌>=>◌,
}

-- What a send function does up to its call of _mosquitto_packet_queue: it returns an error code, it
-- hands a packet to the queue, or it stops at a failed assertion or a write outside the buffer.
pub data Built : Type 0 where
  refused : ℕ → Built
  ready : Packet → Built
  stopped : Built

-- calloc of a packet: all fields are 0
abbrev pub zero_packet : Packet
zero_packet = record {
  payload = [];
  remaining_mult = 0;
  remaining_length = 0;
  packet_length = 0;
  to_process = 0;
  pos = 0;
  mid = 0;
  command = 0;
  remaining_count = pos 0;
}

abbrev pub ready_or_stopped : Option Packet → Built
ready_or_stopped none = stopped
ready_or_stopped (some p) = ready p

-- packet->payload[packet->pos+0] = MOSQ_MSB(mid); packet->payload[packet->pos+1] = MOSQ_LSB(mid);
-- the position does not move.
unfoldable pub put_mid : Packet → ℕ → Option Packet
put_mid p mid = write_bytes p (msb mid ∷ lsb mid ∷ []) >=> λ q. some (record q { pos = p.pos })

-- `mem` says whether the calloc of the packet succeeds.
module _ (alloc : Allocator) (mem : Bool) where
  unfoldable pub send_command_with_mid : ℕ → ℕ → Bool → Built
  send_command_with_mid command mid dup =
      if mem
      then (let (rc, p) = packet_alloc alloc (record zero_packet {
        command = if dup then bit_or command 8 else command;
        remaining_length = 2;
      }) in
          if rc == 0 then ready_or_stopped (put_mid p mid) else refused rc)
      else refused err_nomem

  unfoldable pub send_simple_command : ℕ → Built
  send_simple_command command =
      if mem
      then (let (rc, p) =
            packet_alloc alloc (record zero_packet { command = command; remaining_length = 0 }) in
          if rc == 0 then ready p else refused rc)
      else refused err_nomem

  unfoldable pub send_puback : ℕ → Built
  send_puback mid = send_command_with_mid cmd_puback mid false

  unfoldable pub send_pubrec : ℕ → Built
  send_pubrec mid = send_command_with_mid cmd_pubrec mid false

  unfoldable pub send_pubrel : ℕ → Built
  send_pubrel mid = send_command_with_mid (bit_or cmd_pubrel 2) mid false

  unfoldable pub send_pubcomp : ℕ → Built
  send_pubcomp mid = send_command_with_mid cmd_pubcomp mid false

  unfoldable pub send_pingresp : Built
  send_pingresp = send_simple_command cmd_pingresp

-- PUBLISH | ((dup&0x1)<<3) | (qos<<1) | retain, as a uint8_t
unfoldable pub publish_command : Bool → ℕ → Bool → ℕ
publish_command dup qos retain =
    bit_or (bit_or (bit_or cmd_publish (if dup then 8 else 0)) (qos * 2)) (if retain then 1 else 0)
    % 256

-- The variable header and the payload.
unfoldable pub write_publish : List ℕ → ℕ → ℕ → List ℕ → Packet → Option Packet
write_publish topic qos mid payload p = write_string p topic (length topic) >=> λ p₁.
    (if ltb 0 qos then write_uint16 p₁ mid else some p₁) >=> λ p₂.
    (if ltb 0 (length payload) then write_bytes p₂ payload else some p₂)

-- The result: what is queued. `packetlen` is an int that is stored as a uint32_t.
unfoldable pub send_real_publish : Allocator → Bool → ℕ → List ℕ → List ℕ → ℕ → Bool → Bool → Built
send_real_publish alloc mem mid topic payload qos retain dup =
    if mem
    then (let packetlen = 2 + length topic + length payload + (if ltb 0 qos then 2 else 0) in
        let (rc, p) = packet_alloc alloc (record zero_packet {
          mid = mid;
          command = publish_command dup qos retain;
          remaining_length = u32 packetlen;
        }) in
        if rc == 0 then ready_or_stopped (write_publish topic qos mid payload p) else refused rc)
    else refused err_nomem

-- `connected` is mosq->sock != INVALID_SOCKET
unfoldable pub send_publish :
    Allocator → Bool → Bool → ℕ → List ℕ → List ℕ → ℕ → Bool → Bool → Built
send_publish alloc mem connected mid topic payload qos retain dup =
    if connected
    then send_real_publish alloc mem mid topic payload qos retain dup
    else refused err_no_conn

-- The start of _mosquitto_packet_queue: the packet is made ready and goes to the end of the list
-- out_packet .. out_packet_last.
unfoldable pub packet_queue : List Packet → Packet → List Packet
packet_queue out p = out ++ (record p { pos = 0; to_process = p.packet_length } ∷ [])
