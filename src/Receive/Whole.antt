-- ===== src/Receive/Whole.antt =====
-- A packet whose bytes have all arrived is read in one call, however the network cut it up.
use kocom.Prelude.{
  ℕ, ◌+◌, ◌*◌, ◌≤◌, ◌≡◌, refl, sym, ap, ◌∙◌, true, false, some, List, [], ◌∷◌, ◌++◌, append_assoc,
  arith, length, ℤ, negsuc, neg, ltb, Bool-cases, inl, inr,
}
use kocom.Proto.{ClientState, mqtt_max_payload}
use kocom.Packet.{Packet, Allocator, length_bytes}
use kocom.Send.Framing.{wire}
use kocom.Receive.{
  NetEvent, is_pending, Rx, on, read_command, read_length, end_length, read_header, packet_cleanup,
  packet_read, ◌>>=◌,
}
use kocom.Receive.Payload.{Filling, read_payload-avail}
use kocom.Receive.Length.{read_length-length_bytes}
use kocom.Receive.Stream.{avail, net_read_one}

-- in_packet as _mosquitto_packet_cleanup leaves it.
pub record IsFresh (p : Packet) : Type 0 where
  pub command : p.command ≡ 0
  pub remaining_count : p.remaining_count ≡ ℤ.pos 0
  pub remaining_mult : p.remaining_mult ≡ 1
  pub remaining_length : p.remaining_length ≡ 0
  pub payload : p.payload ≡ []
  pub to_process : p.to_process ≡ 0
  pub pos : p.pos ≡ 0

-- The packet that is handed on.
pub record IsPacket (p : Packet) (command : ℕ) (body : List ℕ) : Type 0 where
  pub command_byte : p.command ≡ command
  pub whole : p.payload ≡ body
  pub remaining_length : p.remaining_length ≡ length body
  pub pos : p.pos ≡ 0

read_command-avail :
    (r : Rx) (command : ℕ) (bs : List ℕ)
    → r.in_packet.command ≡ 0
    → avail r.net ≡ command ∷ bs
    → (net : List NetEvent) × (avail net ≡ bs)
      × (read_command r
          ≡ on (record r { net = net; in_packet = record r.in_packet { command = command } }))
unfolding read_command
read_command-avail r command bs e ea =
    let (net, er, eb) = net_read_one r.net command bs ea in (net, eb, ground (arith, er))

end_length-avail :
    (alloc : Allocator) (r : Rx) (j : ℕ) (block : List ℕ)
    → r.in_packet.remaining_length ≤ mqtt_max_payload
    → r.in_packet.remaining_count ≡ negsuc j
    → r.in_packet.pos ≡ 0
    → r.in_packet.to_process ≡ 0
    → r.in_packet.payload ≡ []
    → alloc.malloc r.in_packet.remaining_length ≡ some block
    → (r' : Rx) × (room : List ℕ) × (end_length alloc r ≡ on r')
      × Filling r'.in_packet [] room
      × (length room ≡ r.in_packet.remaining_length)
      × (r'.net ≡ r.net)
      × (r'.in_packet.command ≡ r.in_packet.command)
      × (r'.in_packet.remaining_length ≡ r.in_packet.remaining_length)
unfolding end_length
end_length-avail alloc r j block hn hc hp ht hl hm =
    let size = alloc.malloc_length _ block hm in
    elim (Bool-cases (ltb 0 r.in_packet.remaining_length)) [
      | inl some_bytes ↦ (
        record r {
          in_packet = record r.in_packet {
            remaining_count = neg r.in_packet.remaining_count;
            payload = block;
            to_process = r.in_packet.remaining_length;
          };
        },
        block,
        ground (arith, hm),
        record { buffer = refl; at = hp; open_bytes = sym size; small = omega arith },
        size,
        refl,
        refl,
        refl,
      )
      | inr no_bytes ↦ (
        record r {
          in_packet = record r.in_packet { remaining_count = neg r.in_packet.remaining_count };
        },
        [],
        ground arith,
        record { buffer = hl; at = hp; open_bytes = ht; small = omega arith },
        ground arith,
        refl,
        refl,
        refl,
      )
    ]

header_chain :
    (alloc : Allocator) (r r₁ r₂ r₃ : Rx)
    → read_command r ≡ on r₁
    → r₁.in_packet.remaining_count ≡ ℤ.pos 0
    → read_length 5 r₁ ≡ on r₂
    → end_length alloc r₂ ≡ on r₃
    → (read_command r >>= read_header alloc) ≡ on r₃
unfolding read_header
header_chain alloc r r₁ r₂ r₃ e₁ c e₂ e₃ = rw e₁ (ground arith)

header_phases :
    (alloc : Allocator) (r : Rx) (command : ℕ) (body rest block : List ℕ)
    → IsFresh r.in_packet
    → length body ≤ mqtt_max_payload
    → alloc.malloc (length body) ≡ some block
    → avail r.net ≡ wire command body ++ rest
    → (r' : Rx) × (room : List ℕ) × ((read_command r >>= read_header alloc) ≡ on r')
      × Filling r'.in_packet [] room
      × (length room ≡ length body)
      × (avail r'.net ≡ body ++ rest)
      × (r'.in_packet.command ≡ command)
      × (r'.in_packet.remaining_length ≡ length body)
unfolding wire
header_phases alloc r command body rest block fresh hn hm ea =
    let (net, eb, er) = read_command-avail r command _ fresh.command ea in
    let r₁ : Rx = record r { net = net; in_packet = record r.in_packet { command = command } } in
    let n : ℕ = length body in
    let sum : r.in_packet.remaining_length + n * r.in_packet.remaining_mult ≡ n =
      rw (fresh.remaining_length, fresh.remaining_mult) (omega arith) in
    let (r₂, el, lr) =
      read_length-length_bytes 3 n 5 0 r₁ (body ++ rest) (omega arith) (omega arith) (omega arith)
        fresh.remaining_count (eb ∙ append_assoc (length_bytes 5 n) body rest) (omega arith) in
    let total : r₂.in_packet.remaining_length ≡ n = lr.total ∙ sum in
    let (r₃, room, ee, fill, size, enet, ecommand, elength) =
      end_length-avail alloc r₂ lr.count.0 block (omega arith) lr.count.1 (lr.pos ∙ fresh.pos)
        (lr.to_process ∙ fresh.to_process) (lr.payload ∙ fresh.payload)
        (ap alloc.malloc total ∙ hm) in
    (
      r₃,
      room,
      header_chain alloc r r₁ r₂ r₃ er fresh.remaining_count el ee,
      fill,
      size ∙ total,
      ap avail enet ∙ lr.left,
      ecommand ∙ lr.command,
      elength ∙ total,
    )

-- A connected client whose socket holds a whole packet (a command byte, the remaining length as
-- packet_alloc writes it, and the body), in blocks of any size and perhaps with more behind it,
-- reads exactly that packet in one call: it is handed on with this command, length and body at
-- position 0, the call returns what the handler returns, in_packet is reset, and what came behind
-- the packet is still there. The body has at most MQTT_MAX_PAYLOAD bytes and its buffer can be
-- allocated.
pub packet_read_whole :
    {S : Type 0} (alloc : Allocator) (now : ℕ) (handle : Packet → S → ℕ × Packet × S)
    (state : ClientState) (r : Rx) (s : S) (command : ℕ) (body rest block : List ℕ)
    → is_pending state ≡ false
    → IsFresh r.in_packet
    → length body ≤ mqtt_max_payload
    → alloc.malloc (length body) ≡ some block
    → avail r.net ≡ wire command body ++ rest
    → (p : Packet) × (net : List NetEvent) × IsPacket p command body
      × (avail net ≡ rest)
      × (packet_read alloc now handle true state r s
          ≡ some (record {
            code = (handle p s).0;
            rx = record { in_packet = packet_cleanup (handle p s).1; last_msg_in = now; net = net };
            state = (handle p s).2;
          }))
unfolding packet_read
packet_read_whole alloc now handle state r s command body rest block hs fresh hn hm ea =
    let (r₁, room, e₁, fill, size, ea₁, ec₁, el₁) =
      header_phases alloc r command body rest block fresh hn hm ea in
    let (r₂, e₂, pr) =
      read_payload-avail r₁.in_packet.to_process now r₁ [] room body rest fill (sym size)
        (omega (arith, fill.open_bytes)) ea₁ in
    (
      record r₂.in_packet { pos = 0 },
      r₂.net,
      record {
        command_byte = pr.command ∙ ec₁;
        whole = pr.payload;
        remaining_length = pr.remaining_length ∙ el₁;
        pos = refl;
      },
      pr.left,
      rw (hs, e₁, e₂) refl,
    )
