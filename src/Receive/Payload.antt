-- ===== src/Receive/Payload.antt =====
-- The loop over the payload collects the bytes in their order, in blocks of any size.
use kocom.Prelude.{
  ℕ, zero, suc, ◌+◌, ◌≤◌, ◌<◌, ◌≡◌, refl, sym, ap, ◌∙◌, List, [], ◌∷◌, ◌++◌, append_assoc, arith,
  length, length-append, length-drop, take, drop, take-append, drop-append, length-eq-zero,
}
use kocom.Packet.{Packet}
use kocom.Receive.{Rx, on, NetEvent, bytes, net_read, store_bytes, read_payload}
use kocom.Receive.Stream.{avail, net_read-avail}

append_split :
    (xs us bs rest : List ℕ)
    → xs ++ us ≡ bs ++ rest
    → length xs ≤ length bs
    → (ys : List ℕ) × (bs ≡ xs ++ ys) × (us ≡ ys ++ rest)
append_split [] us bs rest e h = (bs, refl, e)
append_split (x ∷ xs) us [] rest e h = absurd (omega arith)
append_split (x ∷ xs) us (b ∷ bs) rest e h =
    let e' : xs ++ us ≡ bs ++ rest = cc in
    let x≡b : x ≡ b = cc in
    let (ys, p, q) = append_split xs us bs rest e' (omega arith) in (ys, rw (x≡b, p) refl, q)

-- A packet whose payload is filled up to the position, with `room` still to come.
pub record Filling (p : Packet) (done room : List ℕ) : Type 0 where
  pub buffer : p.payload ≡ done ++ room
  pub at : p.pos ≡ length done
  pub open_bytes : p.to_process ≡ length room
  pub small : length done + length room < 4294967296

-- `r'` differs from `r` in the payload, its position and count, and the network.
pub record PayloadRead (r r' : Rx) (done rest : List ℕ) : Type 0 where
  pub payload : r'.in_packet.payload ≡ done
  pub left : avail r'.net ≡ rest
  pub command : r'.in_packet.command ≡ r.in_packet.command
  pub remaining_length : r'.in_packet.remaining_length ≡ r.in_packet.remaining_length
  pub last_msg_in : r'.last_msg_in ≡ r.last_msg_in

store_bytes-Filling :
    (p : Packet) (done room xs : List ℕ)
    → Filling p done room
    → length xs ≤ length room
    → Filling (store_bytes xs p) (done ++ xs) (drop (length xs) room)
unfolding store_bytes
store_bytes-Filling p done room xs f h =
    let front : take p.pos p.payload ≡ done = rw (f.at, f.buffer) (take-append done room) in
    let back : drop (p.pos + length xs) p.payload ≡ drop (length xs) room =
      rw (f.at, f.buffer) (drop-append done room (length xs)) in
    record {
      buffer = rw (front, back) (sym (append_assoc done xs _));
      at = omega (arith, f.at, f.small, length-append done xs);
      open_bytes = omega (arith, f.open_bytes, length-drop (length xs) room);
      small = omega (arith, f.small, length-append done xs, length-drop (length xs) room);
    }

read_payload_round :
    (fuel now k : ℕ) (r : Rx) (xs : List ℕ) (net : List NetEvent)
    → r.in_packet.to_process ≡ suc k
    → net_read (suc k) r.net ≡ (bytes xs, net)
    → read_payload (suc fuel) now r
      ≡ read_payload fuel now (record r { net = net; in_packet = store_bytes xs r.in_packet })
unfolding read_payload
read_payload_round fuel now k r xs net ek er = ground (arith, ap (λ (n : ℕ). net_read n r.net) ek)

read_payload_done :
    (fuel now : ℕ) (r : Rx) → r.in_packet.to_process ≡ 0 → read_payload fuel now r ≡ on r
unfolding read_payload
read_payload_done zero now r e = ground arith
read_payload_done (suc fuel) now r e = ground arith

PayloadRead-after :
    {r r' : Rx} {done done' rest : List ℕ} (xs : List ℕ) (net : List NetEvent)
    → PayloadRead (record r { net = net; in_packet = store_bytes xs r.in_packet }) r' done rest
    → done ≡ done'
    → PayloadRead r r' done' rest
unfolding store_bytes
PayloadRead-after xs net h e = record {
  payload = h.payload ∙ e;
  left = h.left;
  command = h.command;
  remaining_length = h.remaining_length;
  last_msg_in = h.last_msg_in;
}

-- The bytes `body` that are there go to the open end of the payload.
pub read_payload-avail :
    (fuel now : ℕ) (r : Rx) (done room body rest : List ℕ)
    → Filling r.in_packet done room
    → length body ≡ length room
    → length body ≤ fuel
    → avail r.net ≡ body ++ rest
    → (r' : Rx) × (read_payload fuel now r ≡ on r') × PayloadRead r r' (done ++ body) rest
read_payload-avail fuel now r done room [] rest f e hf ea = (
  r,
  read_payload_done fuel now r (omega (arith, f.open_bytes)),
  record {
    payload = f.buffer ∙ ap (λ l. done ++ l) (length-eq-zero room (omega arith));
    left = ea;
    command = refl;
    remaining_length = refl;
    last_msg_in = refl;
  },
)
read_payload-avail zero now r done room (b ∷ bs) rest f e hf ea = absurd (omega arith)
read_payload-avail (suc fuel) now r done room (b ∷ bs) rest f e hf ea =
    let (xs, net, er, ex, le) = net_read-avail (length bs) r.net b (bs ++ rest) ea in
    let (ys, eb, eu) = append_split xs (avail net) bs rest ex le in
    let next : Rx = record r { net = net; in_packet = store_bytes (b ∷ xs) r.in_packet } in
    let sizes : length bs ≡ length xs + length ys = ap length eb ∙ length-append xs ys in
    let (r', er', pr) =
      read_payload-avail fuel now next (done ++ b ∷ xs) (drop (length (b ∷ xs)) room) ys rest
        (store_bytes-Filling r.in_packet done room (b ∷ xs) f (omega arith))
        (omega (arith, length-drop (length (b ∷ xs)) room)) (omega arith) eu in
    (
      r',
      read_payload_round fuel now (length bs) r (b ∷ xs) net (omega (arith, f.open_bytes)) er ∙ er',
      PayloadRead-after (b ∷ xs) net pr
          (append_assoc done (b ∷ xs) ys ∙ ap (λ l. done ++ b ∷ l) (sym eb)),
    )
