-- ===== src/Send/Write/Drained.antt =====
-- _mosquitto_packet_write on a socket that takes something at every call.
use kocom.Prelude.{
  ℕ, ◌+◌, ◌-◌, ◌≤◌, ◌≡◌, refl, sym, ap, ◌∙◌, Bool, true, false, not, ◌&&◌, Option, none, some, List,
  [], ◌∷◌, ◌++◌, append-nil, All, arith, ltb, ◌==◌, length, length-append, Bool-cases, inl, inr,
  take,
}
use mathlib.Core.Option.{some-injective}
use mathlib.Core.Path.{subst}
use kocom.Proto.{ClientState, err_success}
use kocom.Packet.{Packet}
use kocom.Receive.{is_pending}
use kocom.Send.Write.{
  WriteEvent, takes, again, reset, broken, Link, Tx, finished, advance, fewer, push_packet,
  packet_written, is_publish, is_disconnect, packets_loop, take_current, write_current,
  packet_write,
}
use kocom.Send.Write.Written.{
  IsSendable, unsent, unsent_all, waiting, advance-IsSendable, length-unsent, packet_write-Returned,
}

-- The call takes at least one byte.
unfoldable pub gives_way : WriteEvent → Bool
gives_way (takes n) = ltb 0 n
gives_way _ = false

abbrev pub Open : List WriteEvent → Type 0
Open net = All (λ e. gives_way e ≡ true) net

-- The inner loop has finished the packet, with at most one call for each of its bytes.
record Finished (net : List WriteEvent) (p : Packet) (l : Link) : Type 0 where
  p' : Packet
  l' : Link
  ended : push_packet net p l ≡ finished p' l'
  command : p'.command ≡ p.command
  still : Open l'.net
  calls : length net ≤ length l'.net + p.to_process

push_packet-Finished :
    (net : List WriteEvent) (p : Packet) (l : Link)
    → IsSendable p
    → Open net
    → p.to_process ≤ length net
    → Finished net p l
unfolding push_packet gives_way advance
push_packet-Finished [] p l h o le = record {
  p' = p;
  l' = record l { net = [] };
  ended = ground arith;
  command = refl;
  still = tt;
  calls = omega arith;
}
push_packet-Finished (takes n ∷ net) p l h o le = elim (Bool-cases (p.to_process == 0)) [
  | inl none_left ↦ record {
    p' = p;
    l' = record l { net = takes n ∷ net };
    ended = rw none_left refl;
    command = refl;
    still = o;
    calls = omega arith;
  }
  | inr some_left ↦
      let inside : ltb (length p.payload) (p.pos + p.to_process) ≡ false =
        ground (arith, h.whole) in
      let count = fewer n p.to_process in
      let le' : count ≤ p.to_process = ground arith in
      let bytes : count == 0 ≡ false = ground (arith, o.0, some_left) in
      let one : 1 ≤ count = ground (arith, bytes) in
      let (h', at) = advance-IsSendable count p h le' in
      let left : p.to_process - count ≤ length net = ground (arith, bytes) in
      let rest =
        push_packet-Finished net (advance count p)
          (record l { wire = l.wire ++ take count (unsent p) }) h' o.1 left in
      record {
        p' = rest.p';
        l' = rest.l';
        ended = rw (inside, bytes, some_left) rest.ended;
        command = rest.command;
        still = rest.still;
        calls = omega (arith, rest.calls, one);
      }
]
push_packet-Finished (again ∷ net) p l h o le = absurd (ground (arith, o.0))
push_packet-Finished (reset ∷ net) p l h o le = absurd (ground (arith, o.0))
push_packet-Finished (broken ∷ net) p l h o le = absurd (ground (arith, o.0))

packet_written-net : (now : ℕ) (p : Packet) (l : Link) → (packet_written now p l).net ≡ l.net
unfolding packet_written
packet_written-net now p l = ground arith

-- No packet closes the socket while others wait behind it.
unfoldable pub Lasting : List Packet → Type 0
Lasting [] = Unit
Lasting (p ∷ []) = Unit
Lasting (p ∷ q ∷ qs) = (is_disconnect p ≡ false) × Lasting (q ∷ qs)

-- Nothing waits any more.
pub record Drained (o : Option (ℕ × Tx)) : Type 0 where
  pub left : Tx
  pub ended : o ≡ some (err_success, left)
  pub empty : waiting left ≡ []

packets_loop-Drained :
    (now : ℕ) (qs : List Packet) (p : Packet) (l : Link)
    → IsSendable p
    → All IsSendable qs
    → Lasting (p ∷ qs)
    → Open l.net
    → length (unsent p ++ unsent_all qs) ≤ length l.net
    → Drained (packets_loop now qs p l)
unfolding packets_loop unsent_all Lasting
packets_loop-Drained now [] p l h hs ld o le =
    let f =
      push_packet-Finished l.net p l h o
        (omega (arith, le, length-append (unsent p) [], length-unsent p h)) in
    record {
      left = record { current = none; out_packet = []; link = packet_written now f.p' f.l' };
      ended = rw (f.ended, packets_loop) refl;
      empty = refl;
    }
packets_loop-Drained now (q ∷ qs) p l h hs ld o le =
    let all = length-append (unsent p) (unsent_all (q ∷ qs)) in
    let size = length-unsent p h in
    let f = push_packet-Finished l.net p l h o (omega (arith, le, all, size)) in
    let l'' = packet_written now f.p' f.l' in
    let net = packet_written-net now f.p' f.l' in
    let lasts : not (is_publish f.p') && is_disconnect f.p' ≡ false =
      rw f.command (ground (arith, ld.0)) in
    rw (f.ended, packets_loop, lasts)
      (packets_loop-Drained now qs q l'' hs.0 hs.1 ld.1 (subst Open (sym net) f.still)
        (rw net (omega (arith, le, all, size, f.calls))))

write_current-Drained :
    (now : ℕ) (cur : Option Packet) (out : List Packet) (l : Link)
    → All IsSendable (waiting (record { current = cur; out_packet = out; link = l }))
    → Lasting (waiting (record { current = cur; out_packet = out; link = l }))
    → Open l.net
    → length (unsent_all (waiting (record { current = cur; out_packet = out; link = l })))
      ≤ length l.net
    → Drained
        (write_current now (take_current (record { current = cur; out_packet = out; link = l })))
unfolding write_current take_current unsent_all
write_current-Drained now none [] l h ld o le = record {
  left = record { current = none; out_packet = []; link = l };
  ended = refl;
  empty = refl;
}
write_current-Drained now none (q ∷ qs) l h ld o le =
    packets_loop-Drained now qs q l h.0 h.1 ld o le
write_current-Drained now (some p) out l h ld o le =
    packets_loop-Drained now out p l h.0 h.1 ld o le

packet_write-Drained :
    (now : ℕ) (state : ClientState) (t : Tx)
    → t.link.connected ≡ true
    → is_pending state ≡ false
    → Drained (write_current now (take_current t))
    → Drained (packet_write now state t)
unfolding packet_write
packet_write-Drained now state t c s d = record {
  left = d.left;
  ended = ground (arith, c, s) ∙ d.ended;
  empty = d.empty;
}

packet_write_wire :
    (now : ℕ) (state : ClientState) (t : Tx)
    → All IsSendable (waiting t)
    → (d : Drained (packet_write now state t))
    → d.left.link.wire ≡ t.link.wire ++ unsent_all (waiting t)
unfolding unsent_all
packet_write_wire now state t h d =
    let r = packet_write-Returned now state t h in
    let same : r.left ≡ d.left = ap (λ x. x.1) (some-injective _ _ (sym r.ended ∙ d.ended)) in
    let e : d.left.link.wire ++ unsent_all (waiting d.left)
        ≡ t.link.wire ++ unsent_all (waiting t) =
      subst (λ x. x.link.wire ++ unsent_all (waiting x) ≡ t.link.wire ++ unsent_all (waiting t))
        same r.sent in
    sym (append-nil d.left.link.wire)
    ∙ sym (ap (λ ps. d.left.link.wire ++ unsent_all ps) d.empty)
    ∙ e

-- On a connected socket that takes at least one byte at each call, and for as many calls as there
-- are bytes, one call sends every waiting packet whole and in order, returns success and leaves
-- nothing to be sent. The waiting packets have their buffers filled to their lengths, below 2^32
-- bytes, no DISCONNECT waits in front of another packet, and the connection is not pending.
pub packet_write_drains :
    (now : ℕ) (state : ClientState) (t : Tx)
    → t.link.connected ≡ true
    → is_pending state ≡ false
    → All IsSendable (waiting t)
    → Lasting (waiting t)
    → Open t.link.net
    → length (unsent_all (waiting t)) ≤ length t.link.net
    → (left : Tx) × (packet_write now state t ≡ some (err_success, left))
      × (waiting left ≡ [])
      × (left.link.wire ≡ t.link.wire ++ unsent_all (waiting t))
packet_write_drains now state t c s h ld o le =
    let d =
      packet_write-Drained now state t c s
        (write_current-Drained now t.current t.out_packet t.link h ld o le) in
    (d.left, d.ended, d.empty, packet_write_wire now state t h d)
