-- ===== src/Send/Framing.antt =====
-- The bytes of outgoing packets.
use kocom.Prelude.{
  is_some, ℕ, zero, suc, ◌+◌, ◌/◌, ◌^◌, ◌≤◌, ◌<◌, ◌≡◌, refl, sym, ◌∙◌, ap, Bool, true, false,
  Option, some, List, [], ◌∷◌, ◌++◌, length-eq-zero, append-nil, arith, length, length-append,
  length-drop, drop, ltb, if◌then◌else◌, Bool-cases, inl, inr, pos,
}
use mathlib.Core.Path.{subst, subst₂}
use kocom.Proto.{err_success, err_nomem, err_payload_size, mqtt_max_payload}
use kocom.Packet.{Packet, Allocator, length_bytes, packet_alloc, msb, lsb, u32}
use kocom.Packet.Frames.{
  Frame, SameHeader, Writes, Writes-then, write_bytes-Writes, write_uint16-Writes,
  write_string-Writes, text_bytes,
}
use kocom.Send.{ready, zero_packet, write_publish, publish_command, send_real_publish}

-- The number of length bytes is one for each seven bits, whatever rounds are left beyond that.
length_bytes_bounds :
    (rounds k n : ℕ)
    → n < 128 ^ suc k
    → k < rounds
    → (1 ≤ length (length_bytes rounds n)) × (length (length_bytes rounds n) ≤ suc k)
unfolding length_bytes
length_bytes_bounds zero k n h r = absurd (omega arith)
length_bytes_bounds (suc rounds) zero n h r = ground arith
length_bytes_bounds (suc rounds) (suc k) n h r =
    ground (arith, length_bytes_bounds rounds k (n / 128))

length_bytes_all : (k n : ℕ) → 128 ^ k ≤ n → length (length_bytes (suc k) n) ≡ suc k
unfolding length_bytes
length_bytes_all zero n h = ground arith
length_bytes_all (suc k) n h = ground (arith, length_bytes_all k (n / 128))

-- What packet_alloc makes of a packet.
pub record Allocated (p q : Packet) : Type 0 where
  pub room : List ℕ
  pub frame : Frame q (p.command ∷ length_bytes 5 p.remaining_length) room
  pub room_length : length room ≡ p.remaining_length
  pub header : (q.command ≡ p.command) × (q.mid ≡ p.mid) × (q.remaining_length ≡ p.remaining_length)
  pub counted : q.remaining_count ≡ pos (length (length_bytes 5 p.remaining_length))

-- The length of the whole packet.
abbrev pub wire_length : ℕ → ℕ
wire_length n = u32 (n + 1 + length (length_bytes 5 n))

pub packet_alloc_ok :
    (alloc : Allocator) (p : Packet) (block : List ℕ)
    → p.remaining_length ≤ mqtt_max_payload
    → alloc.malloc (wire_length p.remaining_length) ≡ some block
    → (q : Packet) × (packet_alloc alloc p ≡ (err_success, q)) × Allocated p q
unfolding packet_alloc
packet_alloc_ok alloc p block h e =
    let n = p.remaining_length in
    let count = length (length_bytes 5 n) in
    let (low, high) = length_bytes_bounds 5 3 n (omega arith) (omega arith) in
    let size = alloc.malloc_length _ block e in
    let q : Packet = record p {
      remaining_count = pos count;
      packet_length = wire_length n;
      payload = p.command ∷ length_bytes 5 n ++ drop (1 + count) block;
      pos = 1 + count;
    } in
    (
      q,
      ground (arith, e),
      record {
        room = drop (1 + count) block;
        frame = record {
          buffer = refl;
          at = omega arith;
          sized = omega (arith, length-drop (1 + count) block);
          small = omega arith;
        };
        room_length = omega (arith, length-drop (1 + count) block);
        header = (refl, refl, refl);
        counted = refl;
      },
    )

-- A remaining length beyond MQTT_MAX_PAYLOAD is refused, and no other error code but that of a
-- failed allocation is returned: the three results of packet_alloc, by its input.
pub packet_alloc_cases :
    (alloc : Allocator) (p : Packet)
    → (packet_alloc alloc p).0 ≡ (
        if ltb mqtt_max_payload p.remaining_length
        then err_payload_size
        else if is_some (alloc.malloc (wire_length p.remaining_length))
        then err_success
        else err_nomem)
unfolding packet_alloc
packet_alloc_cases alloc p = elim (Bool-cases (ltb mqtt_max_payload p.remaining_length)) [
  | inl big ↦ ground (arith, length_bytes_all 4 p.remaining_length (ground arith))
  | inr fits ↦ ground (arith, length_bytes_bounds 5 3 p.remaining_length)
]

-- The variable header and the payload of a PUBLISH.
unfoldable pub publish_body : List ℕ → ℕ → ℕ → List ℕ → List ℕ
publish_body topic qos mid payload =
    text_bytes topic ++ ((if ltb 0 qos then msb mid ∷ lsb mid ∷ [] else []) ++ payload)

abbrev pub body_length : List ℕ → ℕ → List ℕ → ℕ
body_length topic qos payload = 2 + length topic + length payload + (if ltb 0 qos then 2 else 0)

length-optional :
    (b : Bool) (xs ys zs : List ℕ)
    → length (xs ++ ((if b then ys else []) ++ zs))
      ≡ length xs + length zs + (if b then length ys else 0)
length-optional true xs ys zs = omega (arith, length-append xs (ys ++ zs), length-append ys zs)
length-optional false xs ys zs = omega (arith, length-append xs zs)

pub length-publish_body :
    (topic : List ℕ) (qos mid : ℕ) (payload : List ℕ)
    → length (publish_body topic qos mid payload) ≡ body_length topic qos payload
unfolding publish_body text_bytes
length-publish_body topic qos mid payload =
    omega (arith, length-optional (ltb 0 qos) topic (msb mid ∷ lsb mid ∷ []) payload)

Writes-nothing : Writes some []
Writes-nothing = record {
  to = λ p written room f h. (
    p,
    refl,
    subst₂ (Frame p) (sym (append-nil written)) refl f,
    record { command = refl; mid = refl; packet_length = refl; remaining_length = refl },
  );
}

Writes-if :
    (b : Bool) (w : Packet → Option Packet) (bytes : List ℕ)
    → Writes w bytes
    → Writes (λ p. if b then w p else some p) (if b then bytes else [])
Writes-if true w bytes h = h
Writes-if false w bytes h = Writes-nothing

if_nonempty : (xs : List ℕ) → (if ltb 0 (length xs) then xs else []) ≡ xs
if_nonempty [] = refl
if_nonempty (x ∷ xs) = ground arith

write_publish-Writes :
    (topic : List ℕ) (qos mid : ℕ) (payload : List ℕ)
    → length topic < 65536
    → Writes (write_publish topic qos mid payload) (publish_body topic qos mid payload)
unfolding write_publish publish_body
write_publish-Writes topic qos mid payload h = Writes-then _ _ _ _ (write_string-Writes topic h) (
    Writes-then _ _ _ _ (Writes-if (ltb 0 qos) _ _ (write_uint16-Writes mid)) (
      subst (Writes _) (if_nonempty payload)
        (Writes-if (ltb 0 (length payload)) _ _ (write_bytes-Writes payload))))

-- The bytes on the wire of a packet with this command and this body.
unfoldable pub wire : ℕ → List ℕ → List ℕ
wire command body = command ∷ length_bytes 5 (length body) ++ body

-- A writer that fills the room which packet_alloc left completes the packet.
pub filled :
    (p q : Packet) (w : Packet → Option Packet) (body : List ℕ)
    → Allocated p q
    → Writes w body
    → length body ≡ p.remaining_length
    → (r : Packet) × (w q ≡ some r)
      × (r.payload ≡ wire p.command body)
      × (r.packet_length ≡ length (wire p.command body))
      × SameHeader q r
unfolding wire
filled p q w body a ww e =
    let (r, er, fr, hr) = ww.to q _ a.room a.frame (omega (arith, a.room_length)) in
    let full =
      length-eq-zero (drop (length body) a.room)
        (omega (arith, length-drop (length body) a.room, a.room_length)) in
    (
      r,
      er,
      fr.buffer ∙ rw (full, append-nil, e),
      fr.sized
          ∙ rw (full, e, length-append)
              (omega (arith, length-append (length_bytes 5 p.remaining_length) body)),
      hr,
    )

-- A PUBLISH packet that is built holds, from its first byte to its last: the command byte, the
-- remaining length in groups of seven bits, the topic with its length, the message id if the QoS is
-- not 0, and the payload. It is built whenever the two allocations succeed, the topic is shorter
-- than 65536 bytes and the remaining length is at most MQTT_MAX_PAYLOAD; no assertion fails.
pub send_real_publish-wire :
    (alloc : Allocator) (mid : ℕ) (topic payload : List ℕ) (qos : ℕ) (retain dup : Bool)
    (block : List ℕ)
    → length topic < 65536
    → body_length topic qos payload ≤ mqtt_max_payload
    → alloc.malloc (wire_length (body_length topic qos payload)) ≡ some block
    → (r : Packet) × (send_real_publish alloc true mid topic payload qos retain dup ≡ ready r)
      × (r.payload ≡ wire (publish_command dup qos retain) (publish_body topic qos mid payload))
      × (r.packet_length ≡ length r.payload)
unfolding send_real_publish
send_real_publish-wire alloc mid topic payload qos retain dup block ht hn hm =
    let n = body_length topic qos payload in
    let p : Packet = record zero_packet {
      mid = mid;
      command = publish_command dup qos retain;
      remaining_length = n;
    } in
    let (q, eq, aq) = packet_alloc_ok alloc p block hn hm in
    let (r, er, pr, lr, hr) =
      filled p q _ (publish_body topic qos mid payload) aq
        (write_publish-Writes topic qos mid payload ht)
        (length-publish_body topic qos mid payload) in
    let small : u32 n ≡ n = omega arith in (r, rw (small, eq, er), pr, lr ∙ ap length (sym pr))
