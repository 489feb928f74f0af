-- ===== src/Handle/Exchange.antt =====
-- A message with QoS 2 that the client receives: PUBLISH (_mosquitto_handle_publish) and PUBREL
-- (_mosquitto_handle_pubrel).
use kocom.Prelude.{
  ℕ, ◌+◌, ◌-◌, ◌≡◌, refl, ◌∙◌, false, arith, bit_and, ◌==◌, not, ◌&&◌, Option, none, some, List, [],
  ◌∷◌, ◌++◌, ap, if◌then◌else◌,
}
use kocom.Proto.{md_in, err_success, err_not_found, wait_for_pubrel}
use kocom.Packet.{Packet, got, read_uint16}
use kocom.Client.{
  Client, Message, Event, sent_pubrec, sent_pubcomp, on_message, send, notify, message_queue,
  message_remove, unlink, head_rc, tail_rcs,
}
use kocom.Client.Unlink.{IsFree, unlink_free, unlink_last}
use kocom.Handle.{deliver, handle_pubrel}

-- What the client holds between the two packets.
abbrev held : Client → Message → Client
held c m = record c {
  rcs = tail_rcs c.rcs;
  events = c.events ++ (sent_pubrec m.mid ∷ []);
  in_queue_len = c.in_queue_len + 1;
  in_messages = c.in_messages ++ (record m { state = wait_for_pubrel } ∷ []);
}

deliver_holds :
    (p : Packet) (c : Client) (m : Message)
    → m.qos ≡ 2
    → deliver p c m ≡ some (head_rc c.rcs, p, held c m)
unfolding deliver send message_queue
deliver_holds p c m q = simp q refl

remove_none :
    (c : Client) (mid : ℕ)
    → unlink mid c.in_messages ≡ none
    → message_remove c mid md_in ≡ (err_not_found, none, c)
unfolding message_remove
remove_none c mid e = rw (e, message_remove) refl

remove_some :
    (c : Client) (mid : ℕ) (m : Message) (left : List Message)
    → unlink mid c.in_messages ≡ some (m, left)
    → message_remove c mid md_in
      ≡ (err_success, some m, record c { in_queue_len = c.in_queue_len - 1; in_messages = left })
unfolding message_remove
remove_some c mid m left e = rw (e, message_remove) refl

-- The answer to a PUBREL once the queue has been searched.
abbrev answered : Packet → ℕ → ℕ × Option Message × Client → ℕ × Packet × Client
answered q' mid r =
    let c'' : Client = elim r.1 [
      | none ↦ r.2
      | some m ↦ if r.0 == 0 then notify (on_message m) r.2 else r.2
    ] in
    let (rc, c3) = send (sent_pubcomp mid) c'' in (rc, q', c3)

handle_pubrel_answers :
    (q q' : Packet) (c : Client) (mid : ℕ)
    → (c.mqtt311 && not (bit_and q.command 0x0f == 2)) ≡ false
    → read_uint16 q ≡ got mid q'
    → handle_pubrel q c ≡ some (answered q' mid (message_remove c mid md_in))
unfolding handle_pubrel send notify
handle_pubrel_answers q q' c mid flags id = rw (flags, id) refl

-- A PUBREL, with the flags that the protocol version asks for, for an id that no message waits
-- with is answered and delivers nothing.
handle_pubrel_unknown :
    (q q' : Packet) (c : Client) (mid : ℕ)
    → (c.mqtt311 && not (bit_and q.command 0x0f == 2)) ≡ false
    → read_uint16 q ≡ got mid q'
    → IsFree mid c.in_messages
    → handle_pubrel q c
      ≡ some (
        head_rc c.rcs,
        q',
        record c { rcs = tail_rcs c.rcs; events = c.events ++ (sent_pubcomp mid ∷ []) },
      )
unfolding send
handle_pubrel_unknown q q' c mid flags id h =
    handle_pubrel_answers q q' c mid flags id
    ∙ ap (λ r. some (answered q' mid r)) (remove_none c mid (unlink_free mid c.in_messages h))

handle_pubrel_known :
    (q q' : Packet) (c : Client) (mid : ℕ) (m : Message) (left : List Message)
    → (c.mqtt311 && not (bit_and q.command 0x0f == 2)) ≡ false
    → read_uint16 q ≡ got mid q'
    → unlink mid c.in_messages ≡ some (m, left)
    → handle_pubrel q c
      ≡ some (
        head_rc c.rcs,
        q',
        record c {
          rcs = tail_rcs c.rcs;
          events = (c.events ++ (on_message m ∷ [])) ++ (sent_pubcomp mid ∷ []);
          in_queue_len = c.in_queue_len - 1;
          in_messages = left;
        },
      )
unfolding send notify
handle_pubrel_known q q' c mid m left flags id e =
    handle_pubrel_answers q q' c mid flags id
    ∙ ap (λ r. some (answered q' mid r)) (remove_some c mid m left e)

three_events :
    (es : List Event) (a b d : Event)
    → ((es ++ (a ∷ [])) ++ (b ∷ [])) ++ (d ∷ []) ≡ es ++ (a ∷ b ∷ d ∷ [])
three_events [] a b d = refl
three_events (e ∷ es) a b d = ap (λ l. e ∷ l) (three_events es a b d)

-- A message with QoS 2 that arrives while no message waits with its id is answered with PUBREC and
-- not yet delivered; a PUBREL with this id and the flags that the protocol version asks for then
-- delivers it, once, and is answered with PUBCOMP; after it the queue of incoming messages is what
-- it was before.
pub deliver-handle_pubrel :
    (p q q' : Packet) (c : Client) (m : Message)
    → m.qos ≡ 2
    → IsFree m.mid c.in_messages
    → (c.mqtt311 && not (bit_and q.command 0x0f == 2)) ≡ false
    → read_uint16 q ≡ got m.mid q'
    → (d e : Client) × (deliver p c m ≡ some (head_rc c.rcs, p, d))
      × (d.events ≡ c.events ++ (sent_pubrec m.mid ∷ []))
      × (handle_pubrel q d ≡ some (head_rc d.rcs, q', e))
      × (e.events
          ≡ c.events
            ++ (sent_pubrec m.mid
                ∷ on_message (record m { state = wait_for_pubrel })
                ∷ sent_pubcomp m.mid
                ∷ []))
      × (e.in_messages ≡ c.in_messages)
      × (e.in_queue_len ≡ c.in_queue_len)
deliver-handle_pubrel p q q' c m two free flags id =
    let last = unlink_last m.mid c.in_messages (record m { state = wait_for_pubrel }) free refl in
    (
      held c m,
      _,
      deliver_holds p c m two,
      refl,
      handle_pubrel_known q q' (held c m) m.mid _ c.in_messages flags id last,
      three_events c.events (sent_pubrec m.mid) (on_message (record m { state = wait_for_pubrel }))
          (sent_pubcomp m.mid),
      refl,
      omega arith,
    )
