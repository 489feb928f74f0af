-- ===== src/Receive/Length.antt =====
-- The loop over the length bytes reads the remaining length that packet_alloc wrote.
use kocom.Prelude.{
  ℕ, zero, suc, ◌+◌, ◌*◌, ◌/◌, ◌%◌, ◌^◌, ◌≤◌, ◌<◌, ◌≡◌, refl, ap, ◌∙◌, true, false, List, [], ◌∷◌,
  ◌++◌, arith, ℤ, negsuc, neg, pred_ℤ, bit_and, bit_and_7f, bit_and_80, bit_or_80, ltb, ◌==◌,
  if◌then◌else◌, Bool-cases, inl, inr,
}
use native.Mathlib.Nat.{div-add-mod}
use kocom.Packet.{length_bytes}
use kocom.Receive.{NetEvent, Rx, on, length_byte, read_length, too_many}
use kocom.Receive.Stream.{avail, net_read_one}

-- `r'` has read the remaining length `n` and nothing more.
pub record LengthRead (r r' : Rx) (acc : ℕ) (rest : List ℕ) : Type 0 where
  pub total : r'.in_packet.remaining_length ≡ acc
  pub left : avail r'.net ≡ rest
  pub count : (j : ℕ) × (r'.in_packet.remaining_count ≡ negsuc j)
  pub command : r'.in_packet.command ≡ r.in_packet.command
  pub pos : r'.in_packet.pos ≡ r.in_packet.pos
  pub payload : r'.in_packet.payload ≡ r.in_packet.payload
  pub to_process : r'.in_packet.to_process ≡ r.in_packet.to_process
  pub last_msg_in : r'.last_msg_in ≡ r.last_msg_in

pred-neg : (j : ℕ) → pred_ℤ (neg (ℤ.pos j)) ≡ negsuc j
pred-neg zero = refl
pred-neg (suc j) = refl

few : (j : ℕ) → j < 4 → too_many (negsuc j) ≡ false
few j h = ground arith

split_group : (n m : ℕ) → n % 128 * m + n / 128 * (m * 128) ≡ n * m
split_group n m = omega (arith, ap (λ (t : ℕ). t * m) (div-add-mod n 128))

-- The state after a length byte `b`, the one numbered `j` from 0.
abbrev after_byte : Rx → ℕ → ℕ → List NetEvent → Rx
after_byte r j b net = record r {
  net = net;
  in_packet = length_byte b (record r.in_packet { remaining_count = negsuc j });
}

length_round :
    (fuel j : ℕ) (r : Rx) (b : ℕ) (bs : List ℕ)
    → j < 4
    → r.in_packet.remaining_count ≡ neg (ℤ.pos j)
    → avail r.net ≡ b ∷ bs
    → (net : List NetEvent) × (avail net ≡ bs)
      × (read_length (suc fuel) r ≡ (
          if bit_and b 128 == 0
          then on (after_byte r j b net)
          else read_length fuel (after_byte r j b net)))
unfolding read_length
length_round fuel j r b bs hj hc e =
    let (net, er, ea) = net_read_one r.net b bs e in
    (net, ea, ground (arith, er, ap pred_ℤ hc, pred-neg j, few j hj))

length_bytes_last : (k n : ℕ) → ltb 0 (n / 128) ≡ false → length_bytes (suc k) n ≡ n ∷ []
unfolding length_bytes
length_bytes_last k n h = ground arith

length_bytes_more :
    (k n : ℕ)
    → ltb 0 (n / 128) ≡ true
    → length_bytes (suc k) n ≡ (n % 128 + 128) ∷ length_bytes k (n / 128)
unfolding length_bytes
length_bytes_more k n h = ground (arith, bit_or_80 (n % 128))

-- The sums that the loop forms for a byte that is not the last do not wrap around.
group_fits :
    (acc n m : ℕ)
    → ltb 0 (n / 128) ≡ true
    → acc + n * m < 268435456
    → (acc + n % 128 * m < 4294967296) × (m * 128 < 4294967296)
group_fits acc n m h fits =
    let pos : 1 ≤ n / 128 = ground arith in
    let whole : n % 128 * m + n / 128 * (m * 128) ≡ n * m = split_group n m in
    let part : m * 128 ≤ n / 128 * (m * 128) = grind arith in (omega arith, omega arith)

length_byte_more :
    (r : Rx) (j n : ℕ) (net : List NetEvent)
    → ltb 0 (n / 128) ≡ true
    → r.in_packet.remaining_length + n * r.in_packet.remaining_mult < 268435456
    → ((after_byte r j (n % 128 + 128) net).in_packet.remaining_length
        ≡ r.in_packet.remaining_length + n % 128 * r.in_packet.remaining_mult)
      × ((after_byte r j (n % 128 + 128) net).in_packet.remaining_mult
          ≡ r.in_packet.remaining_mult * 128)
unfolding length_byte
length_byte_more r j n net h fits =
    let low : bit_and (n % 128 + 128) 127 ≡ n % 128 =
      bit_and_7f (n % 128 + 128) (omega arith) ∙ omega arith in
    let (a, b) = group_fits r.in_packet.remaining_length n r.in_packet.remaining_mult h fits in
    (rw low (omega arith), omega arith)

last_round :
    (k n fuel j : ℕ) (r : Rx) (rest : List ℕ)
    → ltb 0 (n / 128) ≡ false
    → j < 4
    → r.in_packet.remaining_count ≡ neg (ℤ.pos j)
    → avail r.net ≡ length_bytes (suc k) n ++ rest
    → r.in_packet.remaining_length + n * r.in_packet.remaining_mult < 268435456
    → (r' : Rx) × (read_length (suc fuel) r ≡ on r')
      × LengthRead r r' (r.in_packet.remaining_length + n * r.in_packet.remaining_mult) rest
unfolding length_byte
last_round k n fuel j r rest last hj hc e fits =
    let e' : avail r.net ≡ n ∷ rest = e ∙ ap (λ l. l ++ rest) (length_bytes_last k n last) in
    let (net, ea, er) = length_round fuel j r n rest hj hc e' in
    (
      after_byte r j n net,
      er ∙ ground (arith, bit_and_80 n),
      record {
        total = ground (arith, bit_and_7f n);
        left = ea;
        count = (j, refl);
        command = refl;
        pos = refl;
        payload = refl;
        to_process = refl;
        last_msg_in = refl;
      },
    )

LengthRead-after :
    {r r' : Rx} {acc : ℕ} {rest : List ℕ} (j b : ℕ) (net : List NetEvent)
    → LengthRead (after_byte r j b net) r' acc rest
    → LengthRead r r' acc rest
unfolding length_byte
LengthRead-after j b net h = record {
  total = h.total;
  left = h.left;
  count = h.count;
  command = h.command;
  pos = h.pos;
  payload = h.payload;
  to_process = h.to_process;
  last_msg_in = h.last_msg_in;
}

more_continues :
    (fuel n : ℕ) (next : Rx) {r' : Rx}
    → read_length fuel next ≡ on r'
    → (if bit_and (n % 128 + 128) 128 == 0 then on next else read_length fuel next) ≡ on r'
more_continues fuel n next h = ground (arith, bit_and_80 (n % 128 + 128))

-- The bytes that packet_alloc stores for `n` are read back as `n`.
pub read_length-length_bytes :
    (rounds n fuel j : ℕ) (r : Rx) (rest : List ℕ)
    → n < 128 ^ suc rounds
    → rounds < fuel
    → j + rounds < 4
    → r.in_packet.remaining_count ≡ neg (ℤ.pos j)
    → avail r.net ≡ length_bytes (suc (suc rounds)) n ++ rest
    → r.in_packet.remaining_length + n * r.in_packet.remaining_mult < 268435456
    → (r' : Rx) × (read_length fuel r ≡ on r')
      × LengthRead r r' (r.in_packet.remaining_length + n * r.in_packet.remaining_mult) rest
unfolding length_byte
read_length-length_bytes rounds n zero j r rest hn hf hj hc e fits = absurd (omega arith)
read_length-length_bytes zero n (suc fuel) j r rest hn hf hj hc e fits =
    last_round 1 n fuel j r rest (ground arith) (omega arith) hc e fits
read_length-length_bytes (suc rounds) n (suc fuel) j r rest hn hf hj hc e fits =
    elim (Bool-cases (ltb 0 (n / 128))) [
      | inr last ↦ last_round _ n fuel j r rest last (omega arith) hc e fits
      | inl more ↦
          let b : ℕ = n % 128 + 128 in
          let e' : avail r.net ≡ b ∷ length_bytes (suc (suc rounds)) (n / 128) ++ rest =
            e ∙ ap (λ l. l ++ rest) (length_bytes_more (suc (suc rounds)) n more) in
          let (net, ea, er) = length_round fuel j r b _ (omega arith) hc e' in
          let (low, mult) = length_byte_more r j n net more fits in
          let whole : n % 128 * r.in_packet.remaining_mult
                + n / 128 * (r.in_packet.remaining_mult * 128)
              ≡ n * r.in_packet.remaining_mult =
            split_group n r.in_packet.remaining_mult in
          let sum : (after_byte r j b net).in_packet.remaining_length
                + n / 128 * (after_byte r j b net).in_packet.remaining_mult
              ≡ r.in_packet.remaining_length + n * r.in_packet.remaining_mult =
            rw (low, mult) (omega arith) in
          let (r', er', lr) =
            read_length-length_bytes rounds (n / 128) fuel (suc j) (after_byte r j b net) rest
              (omega arith) (omega arith) (omega arith) refl ea (omega arith) in
          (
            r',
            er ∙ more_continues fuel n (after_byte r j b net) er',
            LengthRead-after j b net (rw sum at lr),
          )
    ]
