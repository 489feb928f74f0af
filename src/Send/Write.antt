-- ===== src/Send/Write.antt =====
-- _mosquitto_packet_write, _mosquitto_net_write and _mosquitto_packet_queue of lib/net_mosq.c, in the
-- client library's build and without TLS:
-- the packets that wait are written to a non-blocking socket, in as many calls as it asks for. The
-- callbacks are set and do not change the queue.

pub mod Written
pub mod Drained
pub mod Published
use kocom.Prelude.{
  ℕ, ◌+◌, ◌-◌, Bool, true, false, not, ◌&&◌, Option, none, some, List, [], ◌∷◌, ◌++◌, bit_and, ltb,
  leb, ◌==◌, if◌then◌else◌, length, take, drop,
}
use kocom.Proto.{
  ClientState, err_success, err_no_conn, err_conn_lost, err_errno, cmd_publish, cmd_disconnect,
}
use kocom.Packet.{Packet, u32}
use kocom.Receive.{is_pending}
use kocom.Send.{packet_queue}

-- What a call of write(sock, ..) does: it takes at most so many bytes, or returns -1 with EAGAIN,
-- ECONNRESET or another error.
pub data WriteEvent : Type 0 where
  takes : ℕ → WriteEvent
  again reset broken : WriteEvent

-- The callbacks, with the message id or the code that they are given.
pub data Call : Type 0 where
  on_publish on_disconnect : ℕ → Call

-- What the function changes besides the packets: the socket with the bytes that it has taken,
-- mosq->last_msg_out, and the calls.
pub record Link : Type 0 where
  pub net : List WriteEvent
  pub wire : List ℕ
  pub connected : Bool
  pub last_msg_out : ℕ
  pub calls : List Call

-- current_out_packet, out_packet .. out_packet_last, and the rest.
pub record Tx : Type 0 where
  pub current : Option Packet
  pub out_packet : List Packet
  pub link : Link

-- The inner loop ends with a packet that is written, or it makes the function return a code; `fault`
-- is a read outside the payload.
pub data Pushed : Type 0 where
  finished : Packet → Link → Pushed
  returns : ℕ → Packet → Link → Pushed
  fault : Pushed

-- A call that has taken `count` bytes.
unfoldable pub advance : ℕ → Packet → Packet
advance count p = record p { to_process = p.to_process - count; pos = u32 (p.pos + count) }

abbrev pub fewer : ℕ → ℕ → ℕ
fewer n m = if ltb n m then n else m

-- The inner loop. A call that takes no byte leaves errno at 0. With nothing to offer the socket would
-- block.
unfoldable pub push_packet : List WriteEvent → Packet → Link → Pushed
push_packet [] p l =
    if p.to_process == 0
    then finished p (record l { net = [] })
    else returns err_success p (record l { net = [] })
push_packet (takes n ∷ net) p l =
    let count = fewer n p.to_process in
    let rest =
      push_packet net (advance count p)
        (record l { wire = l.wire ++ take count (drop p.pos p.payload) }) in
    if p.to_process == 0
    then finished p (record l { net = takes n ∷ net })
    else if ltb (length p.payload) (p.pos + p.to_process)
    then fault
    else if count == 0
    then returns err_errno p (record l { net = net })
    else rest
push_packet (again ∷ net) p l =
    if p.to_process == 0
    then finished p (record l { net = again ∷ net })
    else returns err_success p (record l { net = net })
push_packet (reset ∷ net) p l =
    if p.to_process == 0
    then finished p (record l { net = reset ∷ net })
    else returns err_conn_lost p (record l { net = net })
push_packet (broken ∷ net) p l =
    if p.to_process == 0
    then finished p (record l { net = broken ∷ net })
    else returns err_errno p (record l { net = net })

abbrev pub is_publish : Packet → Bool
is_publish p = bit_and p.command 0xF6 == cmd_publish

abbrev pub is_disconnect : Packet → Bool
is_disconnect p = bit_and p.command 0xF0 == cmd_disconnect

-- What follows a packet that is written: a PUBLISH of QoS 0 is reported, and a DISCONNECT closes the
-- socket.
unfoldable pub packet_written : ℕ → Packet → Link → Link
packet_written now p l =
    if is_publish p
    then record l { calls = l.calls ++ (on_publish p.mid ∷ []); last_msg_out = now }
    else if is_disconnect p
    then record l {
      connected = false;
      calls = l.calls ++ (on_disconnect 0 ∷ []);
      last_msg_out = now;
    }
    else record l { last_msg_out = now }

-- The outer loop, over the current packet and those that wait. `none` is a fault.
unfoldable pub packets_loop : ℕ → List Packet → Packet → Link → Option (ℕ × Tx)
packets_loop now [] p l = elim (push_packet l.net p l) [
  | fault ↦ none
  | returns rc p' l' ↦ some (rc, record { current = some p'; out_packet = []; link = l' })
  | finished p' l' ↦
      some
        (err_success, record { current = none; out_packet = []; link = packet_written now p' l' })
]
packets_loop now (q ∷ qs) p l = elim (push_packet l.net p l) [
  | fault ↦ none
  | returns rc p' l' ↦ some (rc, record { current = some p'; out_packet = q ∷ qs; link = l' })
  | finished p' l' ↦
      let rest = packets_loop now qs q (packet_written now p' l') in
      if not (is_publish p') && is_disconnect p'
      then some (
        err_success,
        record { current = some q; out_packet = qs; link = packet_written now p' l' },
      )
      else rest
]

-- With no current packet the first one that waits becomes it.
unfoldable pub take_current : Tx → Tx
take_current t = elim t.current [
  | some p ↦ t
  | none ↦ elim t.out_packet [
    | [] ↦ t
    | q ∷ qs ↦ record { current = some q; out_packet = qs; link = t.link }
  ]
]

unfoldable pub write_current : ℕ → Tx → Option (ℕ × Tx)
write_current now t = elim t.current [
  | none ↦ some (err_success, t)
  | some p ↦ packets_loop now t.out_packet p t.link
]

unfoldable pub packet_write : ℕ → ClientState → Tx → Option (ℕ × Tx)
packet_write now state t =
    let t' = take_current t in
    if not t.link.connected
    then some (err_no_conn, t)
    else if is_pending state
    then some (err_success, t')
    else write_current now t'

-- _mosquitto_packet_queue; `later` says that a callback or another thread will write. The byte that
-- wakes the other thread is left out.
unfoldable pub queue_and_write : ℕ → ClientState → Bool → Packet → Tx → Option (ℕ × Tx)
queue_and_write now state later p t =
    let t' = record t { out_packet = packet_queue t.out_packet p } in
    if later then some (err_success, t') else packet_write now state t'
