-- ===== src/Receive/Acks.antt =====
-- Acknowledgements from one end to the other: _mosquitto_send_command_with_mid of lib/send_mosq.c and
-- the message id that the handlers read from such a packet.
use kocom.Prelude.{
  ℕ, ◌+◌, ◌*◌, ◌/◌, ◌%◌, ◌<◌, ◌≡◌, refl, ◌∙◌, Bool, true, some, List, [], ◌∷◌, arith, bit_or,
  if◌then◌else◌,
}
use kocom.Packet.{
  Packet, Allocator, got, read_uint16, next_byte, write_bytes, msb, lsb, length_bytes,
}
use kocom.Packet.Frames.{write_bytes-Writes}
use kocom.Send.{ready, zero_packet, put_mid, send_command_with_mid}
use kocom.Send.Framing.{wire, wire_length, packet_alloc_ok, filled}
use kocom.Receive.Whole.{IsPacket}

two_bytes : length_bytes 5 2 ≡ 2 ∷ []
unfolding length_bytes
two_bytes = refl

read_mid :
    (q : Packet) (mid : ℕ)
    → mid < 65536
    → q.payload ≡ msb mid ∷ lsb mid ∷ []
    → q.remaining_length ≡ 2
    → q.pos ≡ 0
    → read_uint16 q ≡ got mid (record q { pos = 2 })
unfolding read_uint16 next_byte
read_mid q mid h whole len start =
    let joined : mid / 256 % 256 * 256 + mid % 256 ≡ mid = omega arith in
    simp (whole, len, start) (ground (arith, joined))

-- A packet with a message id is built whenever the allocations succeed: it has four bytes, the
-- command with the flag for a duplicate, the length 2 and the id, high byte first; and whoever
-- receives a packet with this body reads the same id from it.
pub send_command_with_mid-wire :
    (alloc : Allocator) (command mid : ℕ) (dup : Bool) (block : List ℕ) (q : Packet)
    → mid < 65536
    → alloc.malloc 4 ≡ some block
    → IsPacket q (if dup then bit_or command 8 else command) (msb mid ∷ lsb mid ∷ [])
    → (r : Packet) × (send_command_with_mid alloc true command mid dup ≡ ready r)
      × (r.payload ≡ (if dup then bit_or command 8 else command) ∷ 2 ∷ msb mid ∷ lsb mid ∷ [])
      × (read_uint16 q ≡ got mid (record q { pos = 2 }))
unfolding send_command_with_mid put_mid
send_command_with_mid-wire alloc command mid dup block q h hm hq =
    let p : Packet = record zero_packet {
      command = if dup then bit_or command 8 else command;
      remaining_length = 2;
    } in
    let size : wire_length 2 ≡ 4 = rw two_bytes refl in
    let (a, ea, aa) = packet_alloc_ok alloc p block (omega arith) (rw size hm) in
    let (r, er, pr, lr, hr) =
      filled p a (λ x. write_bytes x (msb mid ∷ lsb mid ∷ [])) (msb mid ∷ lsb mid ∷ []) aa
        (write_bytes-Writes (msb mid ∷ lsb mid ∷ [])) refl in
    (
      record r { pos = a.pos },
      rw (ea, er) refl,
      pr ∙ on_wire,
      read_mid q mid h hq.whole hq.remaining_length hq.pos,
    )
  where
    on_wire :
        wire (if dup then bit_or command 8 else command) (msb mid ∷ lsb mid ∷ [])
        ≡ (if dup then bit_or command 8 else command) ∷ 2 ∷ msb mid ∷ lsb mid ∷ []
    on_wire = unfold wire in rw two_bytes refl
