-- ===== src/Send/Protocol.antt =====
-- The PUBLISH packet as the protocol lays it out, written without the program's own functions, and
-- what _mosquitto_send_real_publish of lib/send_mosq.c builds.
use kocom.Prelude.{
  ℕ, zero, suc, ◌+◌, ◌*◌, ◌/◌, ◌%◌, ◌≤◌, ◌<◌, ◌≡◌, refl, ap, ◌∙◌, Bool, true, false, some, List, [],
  ◌∷◌, ◌++◌, arith, length, ltb, if◌then◌else◌, Bool-cases, inl, inr, bit_or_80,
}
use kocom.Proto.{mqtt_max_payload}
use kocom.Packet.{Packet, Allocator, length_bytes, msb, lsb}
use kocom.Packet.Frames.{text_bytes}
use kocom.Send.{ready, publish_command, send_real_publish}
use kocom.Send.Framing.{
  wire, wire_length, publish_body, body_length, length-publish_body, send_real_publish-wire,
}

-- A number of 16 bits, the high byte first.
abbrev pub two_bytes : ℕ → List ℕ
two_bytes n = n / 256 ∷ n % 256 ∷ []

-- The remaining length: groups of seven bits, the lowest first, with 128 added to all but the last.
unfoldable pub remaining : ℕ → List ℕ
remaining n =
    let a = n % 128 + 128 in
    let b = n / 128 % 128 + 128 in
    let c = n / 128 / 128 % 128 + 128 in
    if ltb n 128
    then n ∷ []
    else if ltb n 16384
    then a ∷ n / 128 ∷ []
    else if ltb n 2097152
    then a ∷ b ∷ n / 128 / 128 ∷ []
    else a ∷ b ∷ c ∷ n / 128 / 128 / 128 ∷ []

-- The topic with its length, the message id if the QoS is not 0, and the payload.
unfoldable pub content : ℕ → ℕ → List ℕ → List ℕ → List ℕ
content qos mid topic payload =
    two_bytes (length topic) ++ (topic ++ ((if ltb 0 qos then two_bytes mid else []) ++ payload))

-- The first byte holds the type 3 in its high half, then the bits of DUP, QoS and RETAIN.
unfoldable pub publish_packet : Bool → ℕ → Bool → ℕ → List ℕ → List ℕ → List ℕ
publish_packet dup qos retain mid topic payload =
    (48 + (if dup then 8 else 0) + 2 * qos + (if retain then 1 else 0))
    ∷ (remaining (length (content qos mid topic payload)) ++ content qos mid topic payload)

command_is :
    (dup : Bool) (qos : ℕ) (retain : Bool)
    → qos ≤ 2
    → publish_command dup qos retain
      ≡ 48 + (if dup then 8 else 0) + 2 * qos + (if retain then 1 else 0)
unfolding publish_command
command_is true zero true h = refl
command_is true zero false h = refl
command_is false zero true h = refl
command_is false zero false h = refl
command_is true (suc zero) true h = refl
command_is true (suc zero) false h = refl
command_is false (suc zero) true h = refl
command_is false (suc zero) false h = refl
command_is true (suc (suc zero)) true h = refl
command_is true (suc (suc zero)) false h = refl
command_is false (suc (suc zero)) true h = refl
command_is false (suc (suc zero)) false h = refl
command_is dup (suc (suc (suc n))) retain h = absurd (omega (arith, h))

last_group : (k n : ℕ) → n < 128 → length_bytes (suc k) n ≡ n ∷ []
unfolding length_bytes
last_group k n h = ground (arith, h)

more_groups :
    (k n : ℕ) → 128 ≤ n → length_bytes (suc k) n ≡ (n % 128 + 128) ∷ length_bytes k (n / 128)
unfolding length_bytes
more_groups k n h = ground (arith, h, bit_or_80 (n % 128))

remaining_is : (n : ℕ) → n ≤ mqtt_max_payload → length_bytes 5 n ≡ remaining n
unfolding remaining
remaining_is n h = elim (Bool-cases (ltb n 128)) [
  | inl one ↦ rw one (last_group 4 n (ground (arith, one)))
  | inr more ↦
      let first = more_groups 4 n (ground (arith, more)) in
      elim (Bool-cases (ltb n 16384)) [
        | inl two ↦
            rw (more, two)
              (first ∙ ap (λ l. (n % 128 + 128) ∷ l) (last_group 3 (n / 128) (ground (arith, two))))
        | inr more2 ↦
            let second = more_groups 3 (n / 128) (ground (arith, more2)) in
            elim (Bool-cases (ltb n 2097152)) [
              | inl three ↦
                  rw (more, more2, three)
                    (first
                      ∙ ap (λ l. (n % 128 + 128) ∷ l)
                          (second
                            ∙ ap (λ l. (n / 128 % 128 + 128) ∷ l)
                                (last_group 2 (n / 128 / 128) (ground (arith, three)))))
              | inr more3 ↦
                  rw (more, more2, more3)
                    (first
                      ∙ ap (λ l. (n % 128 + 128) ∷ l)
                          (second
                            ∙ ap (λ l. (n / 128 % 128 + 128) ∷ l)
                                (more_groups 2 (n / 128 / 128) (ground (arith, more3))
                                  ∙ ap (λ l. (n / 128 / 128 % 128 + 128) ∷ l)
                                      (last_group 1 (n / 128 / 128 / 128) (omega (arith, h))))))
            ]
      ]
]

bytes_of : (n : ℕ) → n < 65536 → msb n ∷ lsb n ∷ [] ≡ two_bytes n
bytes_of n h = let e : n / 256 % 256 ≡ n / 256 = omega (arith, h) in rw e refl

content_is :
    (qos mid : ℕ) (topic payload : List ℕ)
    → mid < 65536
    → length topic < 65536
    → publish_body topic qos mid payload ≡ content qos mid topic payload
unfolding publish_body content text_bytes
content_is qos mid topic payload hm ht =
    let rest = (if ltb 0 qos then msb mid ∷ lsb mid ∷ [] else []) ++ payload in
    ap (λ l. l ++ (topic ++ rest)) (bytes_of (length topic) ht)
    ∙ ap (λ l. two_bytes (length topic) ++ (topic ++ ((if ltb 0 qos then l else []) ++ payload)))
        (bytes_of mid hm)

-- A PUBLISH packet that is built holds, from its first byte to its last, what the protocol
-- prescribes: the byte 48 with 8 added for DUP, twice the QoS and 1 for RETAIN; the length of the
-- rest in groups of seven bits, the lowest first, with 128 added to all but the last; the topic
-- behind its length, the message id if the QoS is not 0, both numbers with the high byte first;
-- and the payload. It is built, and no assertion fails, whenever the two allocations succeed, the
-- QoS is at most 2, the message id and the length of the topic are below 65536 and the length of
-- the rest is at most MQTT_MAX_PAYLOAD.
pub send_real_publish-bytes :
    (alloc : Allocator) (mid : ℕ) (topic payload : List ℕ) (qos : ℕ) (retain dup : Bool)
    (block : List ℕ)
    → qos ≤ 2
    → mid < 65536
    → length topic < 65536
    → body_length topic qos payload ≤ mqtt_max_payload
    → alloc.malloc (wire_length (body_length topic qos payload)) ≡ some block
    → (r : Packet) × (send_real_publish alloc true mid topic payload qos retain dup ≡ ready r)
      × (r.payload ≡ publish_packet dup qos retain mid topic payload)
      × (r.packet_length ≡ length r.payload)
unfolding wire publish_packet
send_real_publish-bytes alloc mid topic payload qos retain dup block hq hi ht hn hm =
    let (r, built, bytes, size) =
      send_real_publish-wire alloc mid topic payload qos retain dup block ht hn hm in
    let same = content_is qos mid topic payload hi ht in
    let n : length (publish_body topic qos mid payload) ≤ mqtt_max_payload =
      omega (arith, length-publish_body topic qos mid payload, hn) in
    let groups = remaining_is (length (publish_body topic qos mid payload)) n in
    (r, built, bytes ∙ rw (command_is dup qos retain hq, groups, same) refl, size)
