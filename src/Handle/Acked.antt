-- ===== src/Handle/Acked.antt =====
-- PUBACK and PUBCOMP for a message that the client has sent (_mosquitto_handle_pubackcomp of
-- lib/read_handle_shared.c).
use kocom.Prelude.{
  zero, suc, ◌≤◌, ◌⊎◌, Bool, ◌&&◌, inl, inr, Bool-cases, arith, append_assoc, append-nil, length,
  take, sym, ℕ, ◌-◌, ◌≡◌, refl, ap, ◌∙◌, true, false, ◌==◌, if◌then◌else◌, ltb, none, some, List,
  [], ◌∷◌, ◌++◌, pred_ℤ,
}
use kocom.Proto.{md_out, err_success, err_not_found}
use kocom.Packet.{Packet, got, read_uint16}
use kocom.Client.{
  Client, Message, Event, tail_rcs, sent_publish, notify, on_publish, has_room, head_rc, unlink,
  restart, message_remove, message_delete,
}
use kocom.Client.Unlink.{IsFree, unlink_free}
use kocom.Client.Restart.{
  waits, started, after_start, restart_fails, restart_stops, restart_passes, restart_sends,
}
use kocom.Handle.{Handled, handle_pubackcomp}

-- The client once the message is out of the queue.
abbrev without : Message → Client → Client
without m c = record c {
  out_queue_len = c.out_queue_len - 1;
  inflight_messages = if ltb 0 m.qos then pred_ℤ c.inflight_messages else c.inflight_messages;
}

delete_finds :
    (c : Client) (mid : ℕ) (m : Message) (left : List Message)
    → unlink mid c.out_messages ≡ some (m, left)
    → message_delete c mid md_out ≡ (
      (restart left (without m c)).0,
      record (restart left (without m c)).2 { out_messages = (restart left (without m c)).1 },
    )
unfolding message_delete message_remove
delete_finds c mid m left e = rw (e, message_remove) refl

delete_misses :
    (c : Client) (mid : ℕ)
    → unlink mid c.out_messages ≡ none
    → message_delete c mid md_out ≡ (err_not_found, c)
unfolding message_delete message_remove
delete_misses c mid e = rw (e, message_remove) refl

abbrev reported : Packet → ℕ → ℕ × Client → Handled
reported p' mid r = some (err_success, p', if r.0 == 0 then notify (on_publish mid) r.1 else r.1)

handle_pubackcomp_reports :
    (p p' : Packet) (c : Client) (mid : ℕ)
    → read_uint16 p ≡ got mid p'
    → handle_pubackcomp p c ≡ reported p' mid (message_delete c mid md_out)
unfolding handle_pubackcomp
handle_pubackcomp_reports p p' c mid id = rw id refl

silent :
    (p' : Packet) (mid rc : ℕ) (d : Client)
    → (rc == 0) ≡ false
    → reported p' mid (rc, d) ≡ some (err_success, p', d)
silent p' mid rc d bad = rw bad refl

-- An acknowledgement for an id that no outgoing message has changes nothing and is not reported.
pub handle_pubackcomp_unknown :
    (p p' : Packet) (c : Client) (mid : ℕ)
    → read_uint16 p ≡ got mid p'
    → IsFree mid c.out_messages
    → handle_pubackcomp p c ≡ some (err_success, p', c)
handle_pubackcomp_unknown p p' c mid id free =
    handle_pubackcomp_reports p p' c mid id
    ∙ ap (reported p' mid) (delete_misses c mid (unlink_free mid c.out_messages free))

-- How many of the next sends succeed: all of the first `n`.
unfoldable pub all_sent : ℕ → List ℕ → Bool
all_sent zero rcs = true
all_sent (suc n) rcs = head_rc rcs == 0 && all_sent n (tail_rcs rcs)

-- The messages that wait, as they are sent.
unfoldable pub in_wait : List Message → List Message
in_wait [] = []
in_wait (m ∷ ms) = let rest = in_wait ms in if waits m then started m ∷ rest else rest

unfoldable pub mids : List Message → List ℕ
mids [] = []
mids (m ∷ ms) = m.mid ∷ mids ms

unfoldable pub publishes : List Message → List Event
publishes [] = []
publishes (m ∷ ms) = sent_publish m ∷ publishes ms

-- What sending the waiting messages has done, from the client `c` to `d` with the code `rc`.
record Restarted (ms : List Message) (c : Client) (rc : ℕ) (ms' : List Message) (d : Client)
    : Type 0 where
  count : ℕ
  some_of : count ≤ length (in_wait ms)
  code : (rc == 0) ≡ all_sent count c.rcs
  events : d.events ≡ c.events ++ publishes (take count (in_wait ms))
  ids : mids ms' ≡ mids ms
  why :
      (all_sent count c.rcs ≡ false)
      ⊎ (has_room d.inflight_messages d.max_inflight_messages ≡ false)
      ⊎ (count ≡ length (in_wait ms))

abbrev RestartedBy : List Message → Client → ℕ × List Message × Client → Type 0
RestartedBy ms c r = Restarted ms c r.0 r.1 r.2

Restarted-cons :
    (m : Message) (ms : List Message) (c : Client) (r : ℕ × List Message × Client)
    → waits m ≡ false
    → RestartedBy ms c r
    → RestartedBy (m ∷ ms) c (r.0, m ∷ r.1, r.2)
unfolding in_wait mids
Restarted-cons m ms c r w k = record {
  count = k.count;
  some_of = rw w k.some_of;
  code = k.code;
  events = rw w k.events;
  ids = ap (λ l. m.mid ∷ l) k.ids;
  why = rw w k.why;
}

Restarted-sent :
    (m : Message) (ms : List Message) (c : Client) (r : ℕ × List Message × Client)
    → waits m ≡ true
    → (head_rc c.rcs == 0) ≡ true
    → RestartedBy ms (after_start m c) r
    → RestartedBy (m ∷ ms) c (r.0, started m ∷ r.1, r.2)
unfolding in_wait mids all_sent publishes
Restarted-sent m ms c r w good k = record {
  count = suc k.count;
  some_of = rw w (omega (arith, k.some_of));
  code = rw good k.code;
  events = rw w (k.events ∙ append_assoc c.events (sent_publish (started m) ∷ []) _);
  ids = ap (λ l. m.mid ∷ l) k.ids;
  why = rw (w, good) (ground (arith, k.why));
}

restart-Restarted : (ms : List Message) (c : Client) → RestartedBy ms c (restart ms c)
unfolding restart in_wait all_sent publishes mids
restart-Restarted [] c = record {
  count = 0;
  some_of = omega arith;
  code = refl;
  events = sym (append-nil c.events);
  ids = refl;
  why = inr (inr refl);
}
restart-Restarted (m ∷ ms) c =
    elim (Bool-cases (has_room c.inflight_messages c.max_inflight_messages)) [
      | inr full ↦ rw (restart_stops m ms c full) (record {
        count = 0;
        some_of = omega arith;
        code = refl;
        events = sym (append-nil c.events);
        ids = refl;
        why = inr (inl full);
      })
      | inl room ↦ elim (Bool-cases (waits m)) [
        | inr active ↦
            rw (restart_passes m ms c room active)
              (Restarted-cons m ms c _ active (restart-Restarted ms c))
        | inl w ↦ elim (Bool-cases (head_rc c.rcs == 0)) [
          | inl good ↦
              rw (restart_sends m ms c room w good)
                (Restarted-sent m ms c _ w good (restart-Restarted ms (after_start m c)))
          | inr bad ↦ rw (restart_fails m ms c room w bad) (record {
            count = 1;
            some_of = rw w (omega arith);
            code = ground (arith, bad);
            events = rw w refl;
            ids = refl;
            why = inl (rw bad refl);
          })
        ]
      ]
    ]

-- An acknowledged message is out of the queue, which keeps the other messages in their order. Of those
-- that wait, the first `n` are sent: all of them, unless there is no more room or a send fails. The
-- program is told of the acknowledged message, after that, exactly if each of the `n` sends succeeds:
-- if one fails the message is dropped without a report.
pub handle_pubackcomp_reported :
    (p p' : Packet) (c : Client) (mid : ℕ) (m : Message) (left : List Message)
    → read_uint16 p ≡ got mid p'
    → unlink mid c.out_messages ≡ some (m, left)
    → (d : Client) × (n : ℕ) × (handle_pubackcomp p c ≡ some (err_success, p', d))
      × (mids d.out_messages ≡ mids left)
      × (n ≤ length (in_wait left))
      × (d.events
          ≡ (c.events ++ publishes (take n (in_wait left)))
            ++ (if all_sent n c.rcs then on_publish mid ∷ [] else []))
      × ((all_sent n c.rcs ≡ false)
          ⊎ (has_room d.inflight_messages d.max_inflight_messages ≡ false)
          ⊎ (n ≡ length (in_wait left)))
handle_pubackcomp_reported p p' c mid m left id e =
    let r = restart left (without m c) in
    let k = restart-Restarted left (without m c) in
    let deleted : Client = record r.2 { out_messages = r.1 } in
    let e2 =
      handle_pubackcomp_reports p p' c mid id
      ∙ ap (reported p' mid) (delete_finds c mid m left e) in
    elim (Bool-cases (all_sent k.count c.rcs)) [
      | inl good ↦ (
        notify (on_publish mid) deleted,
        k.count,
        e2 ∙ rw (k.code, good) refl,
        unfold notify in k.ids,
        k.some_of,
        rw good (unfold notify in ap (λ l. l ++ (on_publish mid ∷ [])) k.events),
        unfold notify in k.why,
      )
      | inr bad ↦ (
        deleted,
        k.count,
        e2 ∙ rw (k.code, bad) refl,
        k.ids,
        k.some_of,
        rw bad (k.events ∙ sym (append-nil _)),
        k.why,
      )
    ]
