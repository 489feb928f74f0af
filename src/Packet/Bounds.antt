-- ===== src/Packet/Bounds.antt =====
-- The readers of lib/net_mosq.c stay inside the payload of a received packet.
use kocom.Prelude.{
  ℕ, ◌+◌, ◌*◌, ◌≤◌, ◌<◌, ◌≡◌, Bool, inl, inr, arith, All, All-get_elem?, length, get_elem?-lt,
  Bool-cases, ltb, refl, if◌then◌else◌,
}
use kocom.Proto.{mqtt_max_payload, err_protocol, err_nomem}
use kocom.Packet.{
  Packet, Read, got, failed, fault, u32, next_byte, read_byte, copy_out, read_bytes, read_uint16,
  read_string,
}

abbrev pub IsByte : ℕ → Type 0
IsByte b = b < 256

-- A received packet while it is parsed: the payload is whole and the position is inside it.
pub record IsReadable (p : Packet) : Type 0 where
  pub whole : length p.payload ≡ p.remaining_length
  pub within : p.pos ≤ p.remaining_length
  pub small : p.remaining_length ≤ mqtt_max_payload
  pub bytes : All IsByte p.payload

-- `q` is `p` with the position moved forward, still inside the payload.
pub record Advances (p q : Packet) : Type 0 where
  pub same_payload : q.payload ≡ p.payload
  pub same_length : q.remaining_length ≡ p.remaining_length
  pub forward : p.pos ≤ q.pos
  pub within : q.pos ≤ q.remaining_length

-- A reader that leaves a packet, with a value or with an error, has only advanced it; it never
-- reads outside.
abbrev pub Stays {ℓ} : {A : Type ℓ} → Packet → Read A → Type 0
Stays p (got a q) = Advances p q
Stays p (failed rc q) = Advances p q
Stays p fault = ⊥

pub Advances-IsReadable : {p q : Packet} → IsReadable p → Advances p q → IsReadable q
Advances-IsReadable r a = record {
  whole = ground arith;
  within = a.within;
  small = omega arith;
  bytes = rw a.same_payload r.bytes;
}

-- A byte inside the payload is read, and the position is one further.
pub next_byte_got :
    (p : Packet)
    → IsReadable p
    → p.pos < p.remaining_length
    → (b : ℕ) × IsByte b × (next_byte p ≡ got b (record p { pos = p.pos + 1 }))
unfolding next_byte
next_byte_got p r h =
    let (b, e) = get_elem?-lt p.payload p.pos (omega arith) in
    (b, All-get_elem? IsByte p.payload p.pos r.bytes e, ground arith)

pub read_byte-Stays : (p : Packet) → IsReadable p → Stays p (read_byte p)
unfolding read_byte
read_byte-Stays p r = elim (Bool-cases (ltb p.remaining_length (u32 (p.pos + 1)))) [
  | inl out ↦ rw out (ground arith)
  | inr room ↦ let (b, g, e) = next_byte_got p r (ground arith) in rw (room, e) (ground arith)
]

pub read_bytes-Stays :
    (n : ℕ) (p : Packet) → n ≤ mqtt_max_payload → IsReadable p → Stays p (read_bytes n p)
unfolding read_bytes
read_bytes-Stays n p h r = ground arith

-- A uint16_t inside the payload is read with its high byte first.
pub read_uint16_got :
    (p : Packet)
    → IsReadable p
    → p.pos + 2 ≤ p.remaining_length
    → (n : ℕ) × (n < 65536) × (read_uint16 p ≡ got n (record p { pos = p.pos + 2 }))
unfolding read_uint16
read_uint16_got p r h =
    let (a, ea, na) = next_byte_got p r (omega arith) in
    let q : Packet = record p { pos = p.pos + 1 } in
    let rq : IsReadable q = record {
      whole = r.whole;
      within = omega arith;
      small = r.small;
      bytes = r.bytes;
    } in
    let (b, eb, nb) = next_byte_got q rq (omega arith) in (a * 256 + b, omega arith, ground arith)

pub read_uint16-Stays : (p : Packet) → IsReadable p → Stays p (read_uint16 p)
read_uint16-Stays p r = elim (Bool-cases (ltb p.remaining_length (u32 (p.pos + 2)))) [
  | inl out ↦ unfold read_uint16 in rw out (ground arith)
  | inr room ↦ let (n, small, e) = read_uint16_got p r (ground arith) in rw e (ground arith)
]

-- After the length the text is copied only if all of it is there.
text-Stays :
    (mem : Bool) (len : ℕ) (p : Packet)
    → len < 65536
    → IsReadable p
    → Stays p (
        if ltb p.remaining_length (u32 (p.pos + len))
        then failed err_protocol p
        else if mem
        then copy_out len p
        else failed err_nomem p)
unfolding copy_out
text-Stays mem len p h r = ground arith

Advances-trans : {A : Type 0} {p q : Packet} (r : Read A) → Advances p q → Stays q r → Stays p r
Advances-trans (got a s) h k = ground arith
Advances-trans (failed rc s) h k = ground arith
Advances-trans fault h k = k

pub read_string-Stays : (mem : Bool) (p : Packet) → IsReadable p → Stays p (read_string mem p)
read_string-Stays mem p r = elim (Bool-cases (ltb p.remaining_length (u32 (p.pos + 2)))) [
  | inl out ↦ unfold read_string in rw out (ground arith)
  | inr room ↦
      let (n, small, e) = read_uint16_got p r (ground arith) in
      let q : Packet = record p { pos = p.pos + 2 } in
      let adv : Advances p q = record {
        same_payload = refl;
        same_length = refl;
        forward = omega arith;
        within = ground arith;
      } in
      unfold read_string in
      rw e (Advances-trans _ adv (text-Stays mem n q small (Advances-IsReadable r adv)))
]

-- Each reader, on a whole packet of at most the protocol's length, and for a read of `n` bytes with
-- `n` at most MQTT_MAX_PAYLOAD, either delivers a value or returns an error code, with a position that
-- has only moved forward and is still inside the payload, and never accesses a byte outside it;
-- payload and length are unchanged.
pub readers_stay :
    (mem : Bool) (n : ℕ) (p : Packet)
    → n ≤ mqtt_max_payload
    → IsReadable p
    → Stays p (read_byte p)
      × Stays p (read_bytes n p)
      × Stays p (read_uint16 p)
      × Stays p (read_string mem p)
readers_stay mem n p h r = (
  read_byte-Stays p r,
  read_bytes-Stays n p h r,
  read_uint16-Stays p r,
  read_string-Stays mem p r,
)
