-- ===== src/Packet/Frames.antt =====
-- The writers of lib/net_mosq.c fill a packet's buffer from front to back.
use kocom.Prelude.{
  ℕ, ◌+◌, ◌≤◌, ◌<◌, ◌%◌, ◌≡◌, refl, sym, ◌∙◌, zero, suc, Option, some, List, [], ◌∷◌, ◌++◌,
  append_assoc, arith, length, length-append, length-drop, take, drop, take-append, drop-append,
  take_all,
}
use kocom.Packet.{Packet, msb, lsb, write_byte, write_bytes, write_uint16, write_string, ◌>=>◌}
use mathlib.Core.Path.{subst₂}

-- `written` is in the buffer before the position, and `room` is what is left of it.
pub record Frame (p : Packet) (written room : List ℕ) : Type 0 where
  pub buffer : p.payload ≡ written ++ room
  pub at : p.pos ≡ length written
  pub sized : p.packet_length ≡ length written + length room
  pub small : p.packet_length < 4294967296

-- `q` is `p` with another buffer and position.
pub record SameHeader (p q : Packet) : Type 0 where
  pub command : q.command ≡ p.command
  pub mid : q.mid ≡ p.mid
  pub packet_length : q.packet_length ≡ p.packet_length
  pub remaining_length : q.remaining_length ≡ p.remaining_length

SameHeader-trans : {p q r : Packet} → SameHeader p q → SameHeader q r → SameHeader p r
SameHeader-trans a b = record {
  command = b.command ∙ a.command;
  mid = b.mid ∙ a.mid;
  packet_length = b.packet_length ∙ a.packet_length;
  remaining_length = b.remaining_length ∙ a.remaining_length;
}

write_byte-eq-bytes : (p : Packet) (b : ℕ) → write_byte p b ≡ write_bytes p (b ∷ [])
unfolding write_byte write_bytes
write_byte-eq-bytes p b = ground arith

drop-drop : (m n : ℕ) (xs : List ℕ) → drop n (drop m xs) ≡ drop (m + n) xs
drop-drop zero n xs = let e : 0 + n ≡ n = omega arith in rw e
drop-drop (suc m) zero [] = let e : suc m + 0 ≡ suc m = omega arith in rw e
drop-drop (suc m) (suc n) [] = let e : suc m + suc n ≡ suc (m + suc n) = omega arith in rw e
drop-drop (suc m) n (x ∷ xs) =
    let e : suc m + n ≡ suc (m + n) = omega arith in rw e (drop-drop m n xs)

-- The writer stores these bytes wherever they fit: it does not stop, appends the bytes to what was
-- written, and changes nothing else but the position.
pub record Writes (w : Packet → Option Packet) (bytes : List ℕ) : Type 0 where
  pub to :
      (p : Packet) (written room : List ℕ)
      → Frame p written room
      → length bytes ≤ length room
      → (q : Packet) × (w p ≡ some q)
        × Frame q (written ++ bytes) (drop (length bytes) room)
        × SameHeader p q

pub write_bytes-Writes : (bytes : List ℕ) → Writes (λ p. write_bytes p bytes) bytes
unfolding write_bytes
write_bytes-Writes bytes = record { to = λ p written room f h. step p written room f h }
  where
    step :
        (p : Packet) (written room : List ℕ)
        → Frame p written room
        → length bytes ≤ length room
        → (q : Packet) × (write_bytes p bytes ≡ some q)
          × Frame q (written ++ bytes) (drop (length bytes) room)
          × SameHeader p q
    step p written room f h = (
      record p {
        payload = written ++ (bytes ++ drop (length bytes) room);
        pos = p.pos + length bytes;
      },
      (let front : take p.pos p.payload ≡ written =
            rw (f.at, f.buffer) (take-append written room) in
          let back : drop (p.pos + length bytes) p.payload ≡ drop (length bytes) room =
            rw (f.at, f.buffer) (drop-append written room (length bytes)) in
          ground (arith, length-append written room, f.buffer, front, back)),
      record {
        buffer = sym (append_assoc written bytes _);
        at = omega (arith, f.at, length-append written bytes);
        sized =
            omega (arith, f.sized, length-append written bytes, length-drop (length bytes) room);
        small = f.small;
      },
      record { command = refl; mid = refl; packet_length = refl; remaining_length = refl },
    )

pub write_byte-Writes : (b : ℕ) → Writes (λ p. write_byte p b) (b ∷ [])
write_byte-Writes b = record {
  to = λ p written room f h.
      rw (write_byte-eq-bytes p b) ((write_bytes-Writes (b ∷ [])).to p written room f h);
}

-- One writer after another.
pub Writes-then :
    (w v : Packet → Option Packet) (a b : List ℕ)
    → Writes w a
    → Writes v b
    → Writes (λ p. w p >=> v) (a ++ b)
Writes-then w v a b ww wv = record {
  to = λ p written room f h.
      let (q, eq, fq, hq) = ww.to p written room f (omega (arith, length-append a b)) in
      let (r, er, fr, hr) =
        wv.to q (written ++ a) (drop (length a) room) fq
          (omega (arith, length-append a b, length-drop (length a) room)) in
      (
        r,
        rw eq er,
        rw (length-append a b)
            (subst₂ (Frame r) (append_assoc written a b) (drop-drop (length a) (length b) room) fr),
        SameHeader-trans hq hr,
      );
}

-- A uint16_t is written with its high byte first.
pub write_uint16-Writes : (word : ℕ) → Writes (λ p. write_uint16 p word) (msb word ∷ lsb word ∷ [])
unfolding write_uint16
write_uint16-Writes word =
    Writes-then _ _ _ _ (write_byte-Writes (msb word)) (write_byte-Writes (lsb word))

-- The bytes of a text: its length as a uint16_t, and the text.
unfoldable pub text_bytes : List ℕ → List ℕ
text_bytes str = msb (length str) ∷ lsb (length str) ∷ str

pub write_string-Writes :
    (str : List ℕ)
    → length str < 65536
    → Writes (λ p. write_string p str (length str)) (text_bytes str)
unfolding write_string text_bytes
write_string-Writes str h =
    let e : length str % 65536 ≡ length str = omega arith in
    rw e (
      rw (take_all str)
        (Writes-then _ _ _ _ (write_uint16-Writes (length str)) (write_bytes-Writes str)))
