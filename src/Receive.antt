-- ===== src/Receive.antt =====
-- _mosquitto_packet_read and _mosquitto_packet_cleanup of lib/net_mosq.c, in the client library's
-- build: a packet is read from a non-blocking socket in as many calls as its bytes need.
pub mod Stream
pub mod Length
pub mod Payload
pub mod Whole
pub mod Total
pub mod Acks
use kocom.Prelude.{
  ℕ, zero, suc, ◌+◌, ◌-◌, ◌*◌, Bool, true, false, not, Option, none, some, List, [], ◌∷◌, ◌++◌, ℤ,
  pos, negsuc, pred_ℤ, neg, bit_and, ltb, leb, ◌==◌, if◌then◌else◌, length, take, drop,
}
use kocom.Proto.{
  ClientState, cs_connect_pending, err_success, err_nomem, err_protocol, err_no_conn, err_conn_lost,
  err_errno,
}
use kocom.Packet.{Packet, Allocator, u32}

-- What the socket has to offer, in order. `chunk` is a block of at least one byte; `again` is
-- EAGAIN or EWOULDBLOCK, `reset` is ECONNRESET and `broken` any other error.
pub data NetEvent : Type 0 where
  chunk : ℕ → List ℕ → NetEvent
  eof again reset broken : NetEvent

-- The result of _mosquitto_net_read: its count of bytes with the bytes, 0, or -1 with errno.
pub data NetRead : Type 0 where
  bytes : List ℕ → NetRead
  ended would_block was_reset failed : NetRead

-- read(sock, buf, count) for a positive count: at most `count` bytes of the block that comes next;
-- what is left of it is read later. With nothing to offer the socket would block.
unfoldable pub net_read : ℕ → List NetEvent → NetRead × List NetEvent
net_read count [] = (would_block, [])
net_read count (chunk b bs ∷ net) = (
  bytes (take count (b ∷ bs)),
  elim (drop count (b ∷ bs)) [ [] ↦ net | c ∷ cs ↦ chunk c cs ∷ net ],
)
net_read count (eof ∷ net) = (ended, net)
net_read count (again ∷ net) = (would_block, net)
net_read count (reset ∷ net) = (was_reset, net)
net_read count (broken ∷ net) = (failed, net)

-- What the function changes: mosq->in_packet, mosq->last_msg_in, and the socket.
pub record Rx : Type 0 where
  pub in_packet : Packet
  pub last_msg_in : ℕ
  pub net : List NetEvent

-- A part of the function goes on or returns a code; `spent` means that its fuel ran out.
pub data Phase : Type 0 where
  on : Rx → Phase
  halt : ℕ → Rx → Phase
  spent : Phase

infixl 5 ◌>>=◌
abbrev pub ◌>>=◌ : Phase → (Rx → Phase) → Phase
on r >>= f = f r
halt rc r >>= f = halt rc r
spent >>= f = spent

-- The first byte of a packet is its command.
unfoldable pub read_command : Rx → Phase
read_command r =
    if r.in_packet.command == 0
    then (let (got, net) = net_read 1 r.net in
        let r' = record r { net = net } in
        elim got [
          | bytes [] ↦ halt err_errno r'
          | bytes (b ∷ bs) ↦ on (record r' { in_packet = record r.in_packet { command = b } })
          | ended ↦ halt err_conn_lost r'
          | would_block ↦ halt err_success r'
          | was_reset ↦ halt err_conn_lost r'
          | failed ↦ halt err_errno r'
        ])
    else on r

-- count < -4
abbrev pub too_many : ℤ → Bool
too_many (pos n) = false
too_many (negsuc n) = leb 4 n

-- One byte of the remaining length; the result says whether it is the last.
unfoldable pub length_byte : ℕ → Packet → Packet
length_byte b p = record p {
  remaining_length = u32 (p.remaining_length + bit_and b 127 * p.remaining_mult);
  remaining_mult = u32 (p.remaining_mult * 128);
}

-- The do-while loop over the length bytes, with fuel.
unfoldable pub read_length : ℕ → Rx → Phase
read_length zero r = spent
read_length (suc fuel) r =
    let (got, net) = net_read 1 r.net in
    let r' = record r { net = net } in
    elim got [
      | bytes [] ↦ halt err_errno r'
      | bytes (b ∷ bs) ↦
          let p = record r.in_packet { remaining_count = pred_ℤ r.in_packet.remaining_count } in
          let next = record r' { in_packet = length_byte b p } in
          let rest = read_length fuel next in
          if too_many p.remaining_count
          then halt err_protocol (record r' { in_packet = p })
          else if bit_and b 128 == 0
          then on next
          else rest
      | ended ↦ halt err_conn_lost r'
      | would_block ↦ halt err_success r'
      | was_reset ↦ halt err_conn_lost r'
      | failed ↦ halt err_errno r'
    ]

-- After the loop: the count becomes positive and the payload is allocated.
unfoldable pub end_length : Allocator → Rx → Phase
end_length alloc r =
    let p = record r.in_packet { remaining_count = neg r.in_packet.remaining_count } in
    if ltb 0 p.remaining_length
    then elim (alloc.malloc p.remaining_length) [
      | none ↦ halt err_nomem (record r { in_packet = record p { payload = [] } })
      | some block ↦
          on
            (record r { in_packet = record p { payload = block; to_process = p.remaining_length } })
    ]
    else on (record r { in_packet = p })

-- remaining_count <= 0
abbrev pub unfinished : ℤ → Bool
unfinished (pos zero) = true
unfinished (pos (suc n)) = false
unfinished (negsuc n) = true

-- Each round steps the count down, and the sixth of them would find it below -4: five are enough.
unfoldable pub read_header : Allocator → Rx → Phase
read_header alloc r =
    if unfinished r.in_packet.remaining_count then read_length 5 r >>= end_length alloc else on r

-- The bytes are stored from the position on.
unfoldable pub store_bytes : List ℕ → Packet → Packet
store_bytes xs p = record p {
  payload = take p.pos p.payload ++ (xs ++ drop (p.pos + length xs) p.payload);
  to_process = p.to_process - length xs;
  pos = u32 (p.pos + length xs);
}

-- The loop over the payload, with fuel. At the end of the stream errno is 0, which is neither of
-- the codes that are tested.
unfoldable pub read_payload : ℕ → ℕ → Rx → Phase
read_payload zero now r = if r.in_packet.to_process == 0 then on r else spent
read_payload (suc fuel) now r =
    let p = r.in_packet in
    let (got, net) = net_read p.to_process r.net in
    let r' = record r { net = net } in
    let next : Phase = elim got [
      | bytes xs ↦ read_payload fuel now (record r' { in_packet = store_bytes xs p })
      | ended ↦ halt err_errno r'
      | would_block ↦
          halt err_success (if ltb 1000 p.to_process then record r' { last_msg_in = now } else r')
      | was_reset ↦ halt err_conn_lost r'
      | failed ↦ halt err_errno r'
    ] in
    if p.to_process == 0 then on r else next

unfoldable pub packet_cleanup : Packet → Packet
packet_cleanup p = record p {
  command = 0;
  remaining_count = pos 0;
  remaining_mult = 1;
  remaining_length = 0;
  payload = [];
  to_process = 0;
  pos = 0;
}

abbrev pub is_pending : ClientState → Bool
is_pending cs_connect_pending = true
is_pending _ = false

-- The whole function. `handle` is _mosquitto_packet_handle, which may move the packet's position
-- and works on the rest of the client, `s`; `connected` is mosq->sock != INVALID_SOCKET.
module _ {S : Type 0} (alloc : Allocator) (now : ℕ) (handle : Packet → S → ℕ × Packet × S) where
  pub record Outcome : Type 0 where
    pub code : ℕ
    pub rx : Rx
    pub state : S

  abbrev pub end_packet : Rx → S → Outcome
  end_packet r s =
      let (rc, p, s') = handle (record r.in_packet { pos = 0 }) s in
      record {
        code = rc;
        rx = record r { in_packet = packet_cleanup p; last_msg_in = now };
        state = s';
      }

  -- `none` means that the fuel ran out.
  abbrev pub end_phase : Phase → S → Option Outcome
  end_phase (on r) s = some (end_packet r s)
  end_phase (halt rc r) s = some (record { code = rc; rx = r; state = s })
  end_phase spent s = none

  unfoldable pub packet_read : Bool → ClientState → Rx → S → Option Outcome
  packet_read connected state r s =
      if not connected
      then some (record { code = err_no_conn; rx = r; state = s })
      else if is_pending state
      then some (record { code = err_success; rx = r; state = s })
      else end_phase
          (read_command r >>= read_header alloc >>= λ r'.
            read_payload r'.in_packet.to_process now r')
          s
