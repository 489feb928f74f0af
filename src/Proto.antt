-- ===== src/Proto.antt =====
-- The numbers of the MQTT protocol and of the library's interface: Kocom/mosquitto/lib/mosquitto.h
-- (enum mosq_err_t), lib/mqtt3_protocol.h (packet types) and lib/mosquitto_internal.h (the states of
-- a message and of a connection).
use kocom.Prelude.{ℕ, ◌+◌, ◌%◌, ◌^◌, Bool, true, false, ◌==◌, if◌then◌else◌}

-- enum mosq_err_t; a function that returns 1 for its own reasons returns the code of `err_nomem`.
abbrev pub err_success : ℕ
err_success = 0

abbrev pub err_nomem : ℕ
err_nomem = 1

abbrev pub err_protocol : ℕ
err_protocol = 2

abbrev pub err_inval : ℕ
err_inval = 3

abbrev pub err_no_conn : ℕ
err_no_conn = 4

abbrev pub err_not_found : ℕ
err_not_found = 6

abbrev pub err_conn_lost : ℕ
err_conn_lost = 7

abbrev pub err_payload_size : ℕ
err_payload_size = 9

abbrev pub err_acl_denied : ℕ
err_acl_denied = 12

abbrev pub err_errno : ℕ
err_errno = 14

-- The message id behind `last`, a uint16_t; the id 0 is passed over.
abbrev pub next_mid : ℕ → ℕ
next_mid last = let next = (last + 1) % 2 ^ 16 in if next == 0 then (next + 1) % 2 ^ 16 else next

-- The packet types, in the high half of a command byte.
abbrev pub cmd_connect : ℕ
cmd_connect = 0x10

abbrev pub cmd_connack : ℕ
cmd_connack = 0x20

abbrev pub cmd_publish : ℕ
cmd_publish = 0x30

abbrev pub cmd_puback : ℕ
cmd_puback = 0x40

abbrev pub cmd_pubrec : ℕ
cmd_pubrec = 0x50

abbrev pub cmd_pubrel : ℕ
cmd_pubrel = 0x60

abbrev pub cmd_pubcomp : ℕ
cmd_pubcomp = 0x70

abbrev pub cmd_suback : ℕ
cmd_suback = 0x90

abbrev pub cmd_unsuback : ℕ
cmd_unsuback = 0xb0

abbrev pub cmd_pingreq : ℕ
cmd_pingreq = 0xc0

abbrev pub cmd_pingresp : ℕ
cmd_pingresp = 0xd0

abbrev pub cmd_disconnect : ℕ
cmd_disconnect = 0xe0

abbrev pub mqtt_max_payload : ℕ
mqtt_max_payload = 268435455

-- enum mosquitto_msg_state
pub data MsgState : Type 0 where
  invalid publish_qos0 publish_qos1 wait_for_puback publish_qos2 wait_for_pubrec : MsgState
  resend_pubrel wait_for_pubrel resend_pubcomp wait_for_pubcomp send_pubrec queued : MsgState

-- enum mosquitto_msg_direction
pub data Direction : Type 0 where
  md_in md_out : Direction

abbrev pub state_eq : MsgState → MsgState → Bool
state_eq invalid invalid = true
state_eq publish_qos0 publish_qos0 = true
state_eq publish_qos1 publish_qos1 = true
state_eq wait_for_puback wait_for_puback = true
state_eq publish_qos2 publish_qos2 = true
state_eq wait_for_pubrec wait_for_pubrec = true
state_eq resend_pubrel resend_pubrel = true
state_eq wait_for_pubrel wait_for_pubrel = true
state_eq resend_pubcomp resend_pubcomp = true
state_eq wait_for_pubcomp wait_for_pubcomp = true
state_eq send_pubrec send_pubrec = true
state_eq queued queued = true
state_eq _ _ = false

abbrev pub direction_eq : Direction → Direction → Bool
direction_eq md_in md_in = true
direction_eq md_out md_out = true
direction_eq _ _ = false

-- enum mosquitto_client_state
pub data ClientState : Type 0 where
  cs_new cs_connected cs_disconnecting cs_connect_async cs_connect_pending : ClientState
  cs_connect_srv cs_disconnect_ws cs_disconnected : ClientState
  cs_socks5_new cs_socks5_start cs_socks5_request cs_socks5_reply : ClientState
  cs_socks5_auth_ok cs_socks5_userpass_reply cs_socks5_send_userpass cs_expiring : ClientState
