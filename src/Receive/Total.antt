-- ===== src/Receive/Total.antt =====
-- The fuel of the reader's loops is enough, whatever the network delivers.
use kocom.Prelude.{
  ℕ, zero, suc, ◌+◌, ◌-◌, ◌≤◌, ◌<◌, ◌≡◌, ◌≢◌, refl, ap, ◌∙◌, Bool, true, false, not, some, none,
  List, [], ◌∷◌, arith, length, take, ℤ, negsuc, neg, pred_ℤ, Bool-cases, inl, inr, ltb, ◌==◌,
  if◌then◌else◌, bit_and,
}
use kocom.Prelude
use kocom.Packet.{Packet, Allocator}
use kocom.Proto.{ClientState}
use kocom.Receive.{
  NetEvent, chunk, eof, again, reset, broken, NetRead, bytes, ended, would_block, was_reset, failed,
  net_read, Rx, Phase, on, halt, spent, ◌>>=◌, read_command, length_byte, read_length, end_length,
  read_header, store_bytes, read_payload, packet_read, too_many,
}

abbrev IsStop : NetRead → Type 0
IsStop (bytes xs) = ⊥
IsStop _ = Unit

-- A read of a positive count returns at least one byte, or no bytes for a reason.
data ReadCases (count : ℕ) (net : List NetEvent) : Type 0 where
  delivered :
      (b : ℕ) (xs : List ℕ) (net' : List NetEvent)
      → net_read (suc count) net ≡ (bytes (b ∷ xs), net')
      → ReadCases count net
  stopped :
      (g : NetRead) (net' : List NetEvent)
      → net_read (suc count) net ≡ (g, net')
      → IsStop g
      → ReadCases count net

read_cases : (count : ℕ) (net : List NetEvent) → ReadCases count net
unfolding net_read
read_cases count [] = stopped would_block [] refl tt
read_cases count (chunk b bs ∷ net) = delivered b (take count bs) _ refl
read_cases count (eof ∷ net) = stopped ended net refl tt
read_cases count (again ∷ net) = stopped would_block net refl tt
read_cases count (reset ∷ net) = stopped was_reset net refl tt
read_cases count (broken ∷ net) = stopped failed net refl tt

pred-neg : (j : ℕ) → pred_ℤ (neg (Prelude.pos j)) ≡ negsuc j
pred-neg zero = refl
pred-neg (suc j) = refl

-- The count is -j, and the loop stops at the latest when it is -5.
read_length-ne-spent :
    (fuel j : ℕ) (r : Rx)
    → r.in_packet.remaining_count ≡ neg (Prelude.pos j)
    → 5 ≤ fuel + j
    → j ≤ 4
    → read_length fuel r ≢ spent
unfolding read_length length_byte
read_length-ne-spent zero j r hc hf hj = absurd (omega arith)
read_length-ne-spent (suc fuel) j r hc hf hj = elim (read_cases 0 r.net) [
  | delivered b xs net e ↦
      let next : Rx = record r {
        net = net;
        in_packet = length_byte b (record r.in_packet { remaining_count = negsuc j });
      } in
      ground (
        arith,
        e,
        ap pred_ℤ hc,
        pred-neg j,
        read_length-ne-spent fuel (suc j) next refl (omega arith),
      )
  | stopped g net e h ↦ ground (arith, e)
]

-- Each round of the payload's loop stores at least one byte.
read_payload-ne-spent :
    (fuel now : ℕ) (r : Rx) → r.in_packet.to_process ≤ fuel → read_payload fuel now r ≢ spent
unfolding read_payload store_bytes
read_payload-ne-spent zero now r h = ground arith
read_payload-ne-spent (suc fuel) now r h = elim (read_cases (r.in_packet.to_process - 1) r.net) [
  | delivered b xs net e ↦
      let next : Rx = record r { net = net; in_packet = store_bytes (b ∷ xs) r.in_packet } in
      ground (arith, e, positive r, read_payload-ne-spent fuel now next)
  | stopped g net e s ↦ ground (arith, e, positive r)
]
  where
    positive :
        (q : Rx)
        → 0 < q.in_packet.to_process
        → net_read (suc (q.in_packet.to_process - 1)) q.net ≡ net_read q.in_packet.to_process q.net
    positive q h =
        let e : suc (q.in_packet.to_process - 1) ≡ q.in_packet.to_process = omega arith in rw e

>>=-ne-spent :
    (m : Phase) (f : Rx → Phase) → m ≢ spent → ((r : Rx) → f r ≢ spent) → (m >>= f) ≢ spent
>>=-ne-spent (on r) f h k = k r
>>=-ne-spent (halt rc r) f h k = λ e. cc
>>=-ne-spent spent f h k = absurd (h refl)

end_length-ne-spent : (alloc : Allocator) (r : Rx) → end_length alloc r ≢ spent
unfolding end_length
end_length-ne-spent alloc r = ground arith

-- What the loop over the length bytes finds when it starts: the count is at least -4.
read_header-ne-spent :
    (alloc : Allocator) (r : Rx) (c : ℤ)
    → r.in_packet.remaining_count ≡ c
    → too_many c ≡ false
    → read_header alloc r ≢ spent
unfolding read_header
read_header-ne-spent alloc r (Prelude.pos zero) e h = simp e (
    >>=-ne-spent (read_length 5 r) (end_length alloc)
      (read_length-ne-spent 5 0 r e (omega arith) (omega arith)) (end_length-ne-spent alloc))
read_header-ne-spent alloc r (Prelude.pos (suc n)) e h = simp e (λ p. cc)
read_header-ne-spent alloc r (negsuc n) e h = simp e (
    >>=-ne-spent (read_length 5 r) (end_length alloc)
      (read_length-ne-spent 5 (suc n) r e (omega arith) (ground arith)) (end_length-ne-spent alloc))

-- The command byte leaves the count alone.
read_command-count :
    (r r' : Rx)
    → read_command r ≡ on r'
    → r'.in_packet.remaining_count ≡ r.in_packet.remaining_count
unfolding read_command
read_command-count r r' e = elim (read_cases 0 r.net) [
  | delivered b xs net er ↦ ground (arith, er)
  | stopped g net er s ↦ ground (arith, er)
]

read_command-ne-spent : (r : Rx) → read_command r ≢ spent
unfolding read_command
read_command-ne-spent r = elim (read_cases 0 r.net) [
  | delivered b xs net er ↦ ground (arith, er)
  | stopped g net er s ↦ ground (arith, er)
]

command_and_header :
    (alloc : Allocator) (r : Rx)
    → too_many r.in_packet.remaining_count ≡ false
    → (m : Phase) → read_command r ≡ m
    → (m >>= read_header alloc) ≢ spent
command_and_header alloc r h (on r') e =
    read_header-ne-spent alloc r' r.in_packet.remaining_count (read_command-count r r' e) h
command_and_header alloc r h (halt rc r') e = λ p. cc
command_and_header alloc r h spent e = absurd (read_command-ne-spent r e)

-- The reader ends with a result on any network, in any state of the connection and of a packet
-- whose count of length bytes is not below -4, which is where a reader that has not failed leaves
-- it: its loops never run out of fuel.
pub packet_read-ne-none :
    {S : Type 0} (alloc : Allocator) (now : ℕ) (handle : Packet → S → ℕ × Packet × S)
    (connected : Bool) (state : ClientState) (r : Rx) (s : S)
    → too_many r.in_packet.remaining_count ≡ false
    → packet_read alloc now handle connected state r s ≢ none
unfolding packet_read
packet_read-ne-none alloc now handle connected state r s h =
    let whole =
      >>=-ne-spent (read_command r >>= read_header alloc)
        (λ (r' : Rx). read_payload r'.in_packet.to_process now r')
        (command_and_header alloc r h (read_command r) refl)
        (λ r'. read_payload-ne-spent r'.in_packet.to_process now r' (omega arith)) in
    ground (arith, whole)
