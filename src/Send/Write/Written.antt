-- ===== src/Send/Write/Written.antt =====
-- The bytes that _mosquitto_packet_write hands to the socket.
use kocom.Prelude.{
  ℕ, zero, suc, ◌+◌, ◌≤◌, ◌<◌, ◌≡◌, refl, sym, ap, ◌∙◌, Bool, true, false, not, ◌&&◌, Option, none,
  some, List, [], ◌∷◌, ◌++◌, append_assoc, append-nil, All, arith, ltb, ◌==◌, if◌then◌else◌, length,
  length-drop, length-eq-zero, take_append_drop, take, drop, Bool-cases, inl, inr,
}
use mathlib.Core.Path.{subst}
use kocom.Proto.{ClientState, err_success, err_no_conn, err_conn_lost, err_errno}
use kocom.Packet.{Packet, u32}
use kocom.Receive.{is_pending}
use kocom.Send.Write.{
  WriteEvent, takes, again, reset, broken, Link, Tx, Pushed, finished, returns, fault, advance,
  fewer, push_packet, packet_written, is_publish, is_disconnect, packets_loop, take_current,
  write_current, packet_write,
}

-- A packet whose bytes from the position on are to be sent.
pub record IsSendable (p : Packet) : Type 0 where
  pub whole : p.pos + p.to_process ≡ length p.payload
  pub small : length p.payload < 4294967296

abbrev pub unsent : Packet → List ℕ
unsent p = drop p.pos p.payload

unfoldable pub unsent_all : List Packet → List ℕ
unsent_all [] = []
unsent_all (p ∷ ps) = unsent p ++ unsent_all ps

-- The packets of the two lists, in the order in which they are sent.
abbrev pub waiting : Tx → List Packet
waiting t = elim t.current [ none ↦ t.out_packet | some p ↦ p ∷ t.out_packet ]

no_bytes : (k : ℕ) → take k (drop 0 []) ++ [] ≡ drop {A = ℕ} 0 []
no_bytes zero = refl
no_bytes (suc k) = refl

take-drop : (k n : ℕ) (xs : List ℕ) → take k (drop n xs) ++ drop (n + k) xs ≡ drop n xs
take-drop k zero xs = let e : 0 + k ≡ k = omega arith in rw e (take_append_drop k xs)
take-drop k (suc n) [] = let e : suc n + k ≡ suc (n + k) = omega arith in rw e (no_bytes k)
take-drop k (suc n) (x ∷ xs) =
    let e : suc n + k ≡ suc (n + k) = omega arith in rw e (take-drop k n xs)

pub length-unsent : (p : Packet) → IsSendable p → length (unsent p) ≡ p.to_process
length-unsent p h = omega (arith, length-drop p.pos p.payload, h.whole)

no_unsent : (p : Packet) → IsSendable p → p.to_process ≡ 0 → unsent p ≡ []
no_unsent p h e = length-eq-zero (unsent p) (length-unsent p h ∙ e)

pub advance-IsSendable :
    (count : ℕ) (p : Packet)
    → IsSendable p
    → count ≤ p.to_process
    → IsSendable (advance count p) × ((advance count p).pos ≡ p.pos + count)
unfolding advance
advance-IsSendable count p h le =
    let at : u32 (p.pos + count) ≡ p.pos + count = omega (arith, h.whole, h.small) in
    (record { whole = omega (arith, h.whole, at); small = h.small }, at)

advance-unsent :
    (count : ℕ) (p : Packet) (w : List ℕ)
    → IsSendable p
    → count ≤ p.to_process
    → (w ++ take count (unsent p)) ++ unsent (advance count p) ≡ w ++ unsent p
unfolding advance
advance-unsent count p w h le =
    let (h', at) = advance-IsSendable count p h le in
    append_assoc w (take count (unsent p)) _
    ∙ ap (λ xs. w ++ xs)
        (ap (λ i. take count (unsent p) ++ drop i p.payload) at ∙ take-drop count p.pos p.payload)

-- What the inner loop has done.
unfoldable PushOk : Packet → List ℕ → Pushed → Type 0
PushOk p w fault = ⊥
PushOk p w (returns rc p' l') = IsSendable p' × (l'.wire ++ unsent p' ≡ w ++ unsent p)
PushOk p w (finished p' l') = l'.wire ≡ w ++ unsent p

-- The loop ends before a call, or because of one that takes nothing.
idle-Ok :
    (rc : ℕ) (p : Packet) (l l₁ l₂ : Link)
    → IsSendable p
    → l₁.wire ≡ l.wire
    → l₂.wire ≡ l.wire
    → PushOk p l.wire (if p.to_process == 0 then finished p l₁ else returns rc p l₂)
unfolding PushOk
idle-Ok rc p l l₁ l₂ h e₁ e₂ = elim (Bool-cases (p.to_process == 0)) [
  | inl none_left ↦ rw (none_left, no_unsent p h (ground (arith, none_left)), append-nil) e₁
  | inr some_left ↦ rw (some_left, e₂) (h, refl)
]

PushOk-step :
    (p q : Packet) (w v : List ℕ) (r : Pushed)
    → v ++ unsent q ≡ w ++ unsent p
    → PushOk q v r
    → PushOk p w r
unfolding PushOk
PushOk-step p q w v fault e h = h
PushOk-step p q w v (returns rc p' l') e h = (h.0, h.1 ∙ e)
PushOk-step p q w v (finished p' l') e h = h ∙ e

push_packet-Ok :
    (net : List WriteEvent) (p : Packet) (l : Link)
    → IsSendable p
    → PushOk p l.wire (push_packet net p l)
unfolding push_packet
push_packet-Ok [] p l h = idle-Ok err_success p l _ _ h refl refl
push_packet-Ok (again ∷ net) p l h = idle-Ok err_success p l _ _ h refl refl
push_packet-Ok (reset ∷ net) p l h = idle-Ok err_conn_lost p l _ _ h refl refl
push_packet-Ok (broken ∷ net) p l h = idle-Ok err_errno p l _ _ h refl refl
push_packet-Ok (takes n ∷ net) p l h =
    let inside : ltb (length p.payload) (p.pos + p.to_process) ≡ false = ground (arith, h.whole) in
    let count = fewer n p.to_process in
    let le : count ≤ p.to_process = ground arith in
    let (h', at) = advance-IsSendable count p h le in
    let w = l.wire ++ take count (unsent p) in
    let l' : Link = record l { wire = w } in
    let same : w ++ unsent (advance count p) ≡ l.wire ++ unsent p =
      advance-unsent count p l.wire h le in
    elim (Bool-cases (count == 0)) [
      | inl no_byte ↦ rw (inside, no_byte) (idle-Ok err_errno p l _ _ h refl refl)
      | inr bytes ↦ elim (Bool-cases (p.to_process == 0)) [
        | inl none_left ↦ absurd (ground (arith, bytes, none_left))
        | inr some_left ↦
            rw (inside, bytes, some_left)
              (PushOk-step p (advance count p) l.wire w _ same (push_packet-Ok net _ l' h'))
      ]
    ]

data PushEnd (p : Packet) (w : List ℕ) (r : Pushed) : Type 0 where
  writes : (p' : Packet) (l' : Link) → r ≡ finished p' l' → l'.wire ≡ w ++ unsent p → PushEnd p w r
  stops :
      (rc : ℕ) (p' : Packet) (l' : Link)
      → r ≡ returns rc p' l'
      → IsSendable p'
      → l'.wire ++ unsent p' ≡ w ++ unsent p
      → PushEnd p w r

push_end : (p : Packet) (w : List ℕ) (r : Pushed) → PushOk p w r → PushEnd p w r
unfolding PushOk
push_end p w fault h = absurd h
push_end p w (returns rc p' l') h = stops rc p' l' refl h.0 h.1
push_end p w (finished p' l') h = writes p' l' refl h

-- The function has returned: `bytes` were to be sent after `w`.
pub record Returned (w bytes : List ℕ) (o : Option (ℕ × Tx)) : Type 0 where
  pub code : ℕ
  pub left : Tx
  pub ended : o ≡ some (code, left)
  pub ready : All IsSendable (waiting left)
  pub sent : left.link.wire ++ unsent_all (waiting left) ≡ w ++ bytes

packet_written-wire : (now : ℕ) (p : Packet) (l : Link) → (packet_written now p l).wire ≡ l.wire
unfolding packet_written
packet_written-wire now p l = ground arith

-- Once the current packet is written, the others are left to be sent.
Returned-step :
    (w w' u us : List ℕ) (o : Option (ℕ × Tx))
    → w' ≡ w ++ u
    → Returned w' us o
    → Returned w (u ++ us) o
Returned-step w w' u us o e r = record {
  code = r.code;
  left = r.left;
  ended = r.ended;
  ready = r.ready;
  sent = r.sent ∙ ap (λ xs. xs ++ us) e ∙ append_assoc w u us;
}

packets_loop-Returned :
    (now : ℕ) (qs : List Packet) (p : Packet) (l : Link)
    → IsSendable p
    → All IsSendable qs
    → Returned l.wire (unsent p ++ unsent_all qs) (packets_loop now qs p l)
unfolding packets_loop unsent_all
packets_loop-Returned now [] p l h hs = elim (push_end p l.wire _ (push_packet-Ok l.net p l h)) [
  | stops rc p' l' e ok sent ↦ record {
    code = rc;
    left = record { current = some p'; out_packet = []; link = l' };
    ended = rw (e, packets_loop) refl;
    ready = (ok, tt);
    sent = rw (append-nil, append-nil) sent;
  }
  | writes p' l' e sent ↦
      Returned-step l.wire _ (unsent p) [] _ (packet_written-wire now p' l' ∙ sent) (record {
        code = err_success;
        left = record { current = none; out_packet = []; link = packet_written now p' l' };
        ended = rw (e, packets_loop) refl;
        ready = tt;
        sent = refl;
      })
]
packets_loop-Returned now (q ∷ qs) p l h hs =
    elim (push_end p l.wire _ (push_packet-Ok l.net p l h)) [
      | stops rc p' l' e ok sent ↦ record {
        code = rc;
        left = record { current = some p'; out_packet = q ∷ qs; link = l' };
        ended = rw (e, packets_loop) refl;
        ready = (ok, hs);
        sent =
            sym (append_assoc l'.wire (unsent p') _)
            ∙ ap (λ xs. xs ++ unsent_all (q ∷ qs)) sent
            ∙ append_assoc l.wire (unsent p) _;
      }
      | writes p' l' e sent ↦
          let l'' = packet_written now p' l' in
          Returned-step l.wire _ (unsent p) (unsent_all (q ∷ qs)) _
            (packet_written-wire now p' l' ∙ sent)
            (elim (Bool-cases (not (is_publish p') && is_disconnect p')) [
              | inl closes ↦ record {
                code = err_success;
                left = record { current = some q; out_packet = qs; link = l'' };
                ended = rw (e, packets_loop, closes) refl;
                ready = hs;
                sent = refl;
              }
              | inr goes_on ↦
                  rw (e, packets_loop, goes_on) (packets_loop-Returned now qs q l'' hs.0 hs.1)
            ])
    ]

Returned-if :
    (b : Bool) (w u : List ℕ) (x y : Option (ℕ × Tx))
    → Returned w u x
    → Returned w u y
    → Returned w u (if b then x else y)
Returned-if true w u x y hx hy = hx
Returned-if false w u x y hx hy = hy

Returned-now :
    (rc : ℕ) (t : Tx)
    → All IsSendable (waiting t)
    → Returned t.link.wire (unsent_all (waiting t)) (some (rc, t))
Returned-now rc t h = record { code = rc; left = t; ended = refl; ready = h; sent = refl }

write_current-Returned :
    (now : ℕ) (cur : Option Packet) (out : List Packet) (l : Link)
    → All IsSendable (waiting (record { current = cur; out_packet = out; link = l }))
    → Returned l.wire
        (unsent_all (waiting (record { current = cur; out_packet = out; link = l })))
        (write_current now (record { current = cur; out_packet = out; link = l }))
unfolding write_current unsent_all
write_current-Returned now none out l h = Returned-now err_success _ h
write_current-Returned now (some p) out l h = packets_loop-Returned now out p l h.0 h.1

abbrev Same : Tx → Tx → Type 0
Same t t' = (waiting t' ≡ waiting t) × (t'.link ≡ t.link)

take_keeps :
    (cur : Option Packet) (out : List Packet) (l : Link)
    → Same
        (record { current = cur; out_packet = out; link = l })
        (take_current (record { current = cur; out_packet = out; link = l }))
unfolding take_current
take_keeps none [] l = (refl, refl)
take_keeps none (q ∷ qs) l = (refl, refl)
take_keeps (some p) out l = (refl, refl)

pub take_current-Same : (t : Tx) → Same t (take_current t)
take_current-Same t = take_keeps t.current t.out_packet t.link

Returned-Same :
    (t t' : Tx) (o : Option (ℕ × Tx))
    → Same t t'
    → Returned t'.link.wire (unsent_all (waiting t')) o
    → Returned t.link.wire (unsent_all (waiting t)) o
Returned-Same t t' o (same, link) r = record {
  code = r.code;
  left = r.left;
  ended = r.ended;
  ready = r.ready;
  sent =
      r.sent
      ∙ ap (λ l. l.wire ++ unsent_all (waiting t')) link
      ∙ ap (λ ps. t.link.wire ++ unsent_all ps) same;
}

-- Where every waiting packet has its buffer filled to its length, below 2^32 bytes, one call ends
-- without a read outside a buffer, whatever the socket does and in every state of the connection.
-- The bytes on the socket and then those that still wait are the same as before the call: no byte is
-- lost, sent twice or out of order, and the packets that are left can be sent on from where they
-- stopped.
pub packet_write-Returned :
    (now : ℕ) (state : ClientState) (t : Tx)
    → All IsSendable (waiting t)
    → Returned t.link.wire (unsent_all (waiting t)) (packet_write now state t)
unfolding packet_write
packet_write-Returned now state t h =
    let t' = take_current t in
    let same = take_current-Same t in
    let h' = subst (All IsSendable) (sym same.0) h in
    Returned-if (not t.link.connected) _ _ _ _ (Returned-now err_no_conn t h) (
      Returned-if (is_pending state) _ _ _ _
        (Returned-Same t t' _ same (Returned-now err_success t' h'))
        (Returned-Same t t' _ same
          (write_current-Returned now t'.current t'.out_packet t'.link h')))
