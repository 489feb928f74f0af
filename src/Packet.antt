-- ===== src/Packet.antt =====
-- Packets and their buffers: lib/mosquitto_internal.h (struct _mosquitto_packet), the readers and
-- writers of lib/net_mosq.c, and _mosquitto_packet_alloc of lib/util_mosq.c. A uint8_t buffer is a
-- list of numbers and NULL is the empty list; uint32_t sums keep their wrap-around.
pub mod Bounds
pub mod Frames
use kocom.Prelude.{
  ℕ, zero, suc, ◌+◌, ◌*◌, ◌/◌, ◌%◌, ◌^◌, ◌≡◌, Bool, ◌&&◌, Option, none, some, List, [], ◌∷◌, ◌++◌,
  ℤ, pos, bit_or, ltb, leb, ◌==◌, if◌then◌else◌, length, get_elem?, take, drop,
}
use kocom.Proto.{err_success, err_nomem, err_protocol, err_payload_size}

pub record Packet : Type 0 where
  pub payload : List ℕ
  pub remaining_mult : ℕ
  pub remaining_length : ℕ
  pub packet_length : ℕ
  pub to_process : ℕ
  pub pos : ℕ
  pub mid : ℕ
  pub command : ℕ
  pub remaining_count : ℤ

-- malloc: a block of `n` bytes whose contents are not specified, or NULL.
pub record Allocator : Type 0 where
  pub malloc : ℕ → Option (List ℕ)
  pub malloc_length : (n : ℕ) (xs : List ℕ) → malloc n ≡ some xs → length xs ≡ n

abbrev pub u32 : ℕ → ℕ
u32 n = n % 2 ^ 32

-- What a reader does: it stores a value, or it returns an error code, each with the packet as it
-- leaves it; `fault` is an access outside the payload.
pub data Read {ℓ} (A : Type ℓ) : Type ℓ where
  got : A → Packet → Read A
  failed : ℕ → Packet → Read A
  fault : Read A

infixl 5 ◌>>=◌
abbrev pub ◌>>=◌ {ℓ κ} : {A : Type ℓ} {B : Type κ} → Read A → (A → Packet → Read B) → Read B
got a p >>= f = f a p
failed rc p >>= f = failed rc p
fault >>= f = fault

-- *byte = packet->payload[packet->pos]; packet->pos++;
unfoldable pub next_byte : Packet → Read ℕ
next_byte p = elim (get_elem? p.payload p.pos) [
  | none ↦ fault
  | some b ↦ got b (record p { pos = u32 (p.pos + 1) })
]

unfoldable pub read_byte : Packet → Read ℕ
unfolding next_byte
read_byte p =
    if ltb p.remaining_length (u32 (p.pos + 1)) then failed err_protocol p else next_byte p

-- memcpy of `count` bytes from the position, which then moves past them
unfoldable pub copy_out : ℕ → Packet → Read (List ℕ)
copy_out count p =
    if leb (p.pos + count) (length p.payload)
    then got (take count (drop p.pos p.payload)) (record p { pos = u32 (p.pos + count) })
    else fault

unfoldable pub read_bytes : ℕ → Packet → Read (List ℕ)
unfolding copy_out
read_bytes count p =
    if ltb p.remaining_length (u32 (p.pos + count)) then failed err_protocol p else copy_out count p

unfoldable pub read_uint16 : Packet → Read ℕ
unfolding next_byte
read_uint16 p =
    if ltb p.remaining_length (u32 (p.pos + 2))
    then failed err_protocol p
    else next_byte p >>= λ msb p₁. next_byte p₁ >>= λ lsb p₂. got (msb * 256 + lsb) p₂

-- The text is stored with a terminating zero, which is not part of the value here; `mem` says
-- whether the allocation of the copy succeeds.
unfoldable pub read_string : Bool → Packet → Read (List ℕ)
unfolding read_uint16 copy_out
read_string mem p = read_uint16 p >>= λ len p₁.
    (if ltb p₁.remaining_length (u32 (p₁.pos + len))
      then failed err_protocol p₁
      else if mem
      then copy_out len p₁
      else failed err_nomem p₁)

-- The writers: `none` is a failed assertion, or a write outside the payload.
unfoldable pub write_byte : Packet → ℕ → Option Packet
write_byte p byte =
    if leb (u32 (p.pos + 1)) p.packet_length && ltb p.pos (length p.payload)
    then some (record p {
      payload = take p.pos p.payload ++ (byte ∷ drop (p.pos + 1) p.payload);
      pos = u32 (p.pos + 1);
    })
    else none

unfoldable pub write_bytes : Packet → List ℕ → Option Packet
write_bytes p bytes =
    if leb (u32 (p.pos + length bytes)) p.packet_length
      && leb (p.pos + length bytes) (length p.payload)
    then some (record p {
      payload = take p.pos p.payload ++ (bytes ++ drop (p.pos + length bytes) p.payload);
      pos = u32 (p.pos + length bytes);
    })
    else none

-- A chain of writers, each of which may stop the program.
infixl 5 ◌>=>◌
abbrev pub ◌>=>◌ : Option Packet → (Packet → Option Packet) → Option Packet
none >=> f = none
some p >=> f = f p

-- MOSQ_MSB and MOSQ_LSB of a uint16_t
abbrev pub msb : ℕ → ℕ
msb word = word / 256 % 256

abbrev pub lsb : ℕ → ℕ
lsb word = word % 256

unfoldable pub write_uint16 : Packet → ℕ → Option Packet
unfolding write_byte
write_uint16 p word = write_byte p (msb word) >=> λ q. write_byte q (lsb word)

-- `len` is the uint16_t that the caller's length is converted to; the text holds at least as many
-- bytes as the caller says.
unfoldable pub write_string : Packet → List ℕ → ℕ → Option Packet
unfolding write_uint16 write_bytes
write_string p str len =
    write_uint16 p (len % 2 ^ 16) >=> λ q. write_bytes q (take (len % 2 ^ 16) str)

-- The loop of _mosquitto_packet_alloc, with the rounds that are left before its counter is 5: the
-- bytes that it stores in `remaining_bytes`.
unfoldable pub length_bytes : ℕ → ℕ → List ℕ
length_bytes zero n = []
length_bytes (suc rounds) n =
    let rest = length_bytes rounds (n / 128) in
    if ltb 0 (n / 128) then bit_or (n % 128) 0x80 ∷ rest else (n % 128) ∷ []

-- The result: the code and the packet, whose header is written if the code is 0. A block that is
-- too short for the header faults, and `malloc_length` rules it out.
unfoldable pub packet_alloc : Allocator → Packet → ℕ × Packet
unfolding length_bytes
packet_alloc mem p =
    let bytes = length_bytes 5 p.remaining_length in
    let count = length bytes in
    let total = u32 (p.remaining_length + 1 + count) in
    let counted = record p { payload = []; remaining_count = pos count } in
    if count == 5 then (err_payload_size, counted) else elim (mem.malloc total) [
      | none ↦ (err_nomem, record counted { packet_length = total })
      | some block ↦ (
        err_success,
        record counted {
          packet_length = total;
          payload = p.command ∷ bytes ++ drop (1 + count) block;
          pos = 1 + count;
        },
      )
    ]
