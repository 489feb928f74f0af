-- ===== src/Client/Queues.antt =====
-- The operations on the client's two queues keep them well formed.
use kocom.Prelude.{
  ℕ, suc, ◌-◌, ◌≡◌, refl, sym, ap, ◌∙◌, false, Option, none, some, List, [], ◌∷◌, All, All-append,
  arith, length, length-append, not, ◌&&◌, ◌==◌, inl, inr, Bool-cases,
}
use mathlib.Core.Option.{some-injective}
use kocom.Proto.{Direction, md_in, md_out, MsgState, direction_eq}
use kocom.Client.{
  Message, Client, message_queue, unlink, restart, message_remove, update_state, message_out_update,
}
use kocom.Client.Unlink.{All-unlink, length-unlink}
use kocom.Client.Restart.{restart_induction}

abbrev pub IsQos2 : Message → Type 0
IsQos2 m = m.qos ≡ 2

-- The lengths are counted right, and only messages with QoS 2 wait in in_messages.
pub record IsValid (c : Client) : Type 0 where
  pub in_len : c.in_queue_len ≡ length c.in_messages
  pub out_len : c.out_queue_len ≡ length c.out_messages
  pub ins : All IsQos2 c.in_messages

pub message_queue-IsValid :
    (c : Client) (m : Message) (dir : Direction)
    → IsValid c
    → (direction_eq dir md_in && not (m.qos == 2)) ≡ false
    → IsValid (message_queue c m dir).1
unfolding message_queue
message_queue-IsValid c m md_in v q = record {
  in_len = omega (arith, v.in_len, length-append c.in_messages (m ∷ []));
  out_len = v.out_len;
  ins = All-append IsQos2 c.in_messages (m ∷ []) v.ins (ground arith, tt);
}
message_queue-IsValid c m md_out v q =
    ground (arith, v.in_len, v.out_len, v.ins, length-append c.out_messages (m ∷ []))

-- What `restart` leaves alone.
pub record Restarted (c : Client) (ms : List Message) (r : ℕ × List Message × Client) : Type 0 where
  pub len : length r.1 ≡ length ms
  pub in_messages : r.2.in_messages ≡ c.in_messages
  pub in_queue_len : r.2.in_queue_len ≡ c.in_queue_len
  pub out_queue_len : r.2.out_queue_len ≡ c.out_queue_len
  pub max : r.2.max_inflight_messages ≡ c.max_inflight_messages

pub restart-Restarted : (ms : List Message) (c : Client) → Restarted c ms (restart ms c)
restart-Restarted =
    restart_induction (λ ms c r. Restarted c ms r)
      (λ c. record {
        len = refl;
        in_messages = refl;
        in_queue_len = refl;
        out_queue_len = refl;
        max = refl;
      })
      (λ m ms c. record {
        len = refl;
        in_messages = refl;
        in_queue_len = refl;
        out_queue_len = refl;
        max = refl;
      })
      (λ m ms c r _ h. record {
        len = ap suc h.len;
        in_messages = h.in_messages;
        in_queue_len = h.in_queue_len;
        out_queue_len = h.out_queue_len;
        max = h.max;
      })
      (λ m ms c r _ _ h. record {
        len = ap suc h.len;
        in_messages = h.in_messages;
        in_queue_len = h.in_queue_len;
        out_queue_len = h.out_queue_len;
        max = h.max;
      })
      (λ m ms c rc _ _. record {
        len = refl;
        in_messages = refl;
        in_queue_len = refl;
        out_queue_len = refl;
        max = refl;
      })

removed_out :
    (c : Client) (mid : ℕ) (m : Message) (left : List Message)
    → unlink mid c.out_messages ≡ some (m, left)
    → IsValid c
    → (d : Client) → d.in_messages ≡ c.in_messages
    → d.in_queue_len ≡ c.in_queue_len
    → d.out_queue_len ≡ c.out_queue_len - 1
    → IsValid (record (restart left d).2 { out_messages = (restart left d).1 })
removed_out c mid m left e v d hi hl ho =
    let r = restart-Restarted left d in
    let n = length-unlink mid c.out_messages m left e in
    record {
      in_len = r.in_queue_len ∙ hl ∙ v.in_len ∙ ap length (sym (r.in_messages ∙ hi));
      out_len = omega (arith, r.len, r.out_queue_len, ho, v.out_len);
      ins = rw (r.in_messages, hi) v.ins;
    }

-- On well-formed queues, removing a message, in either direction, whether there is one with the id
-- or not, and with whatever waiting messages it starts, leaves both lengths exact and only
-- messages with QoS 2 in in_messages.
pub message_remove-IsValid :
    (c : Client) (mid : ℕ) (dir : Direction) → IsValid c → IsValid (message_remove c mid dir).2
unfolding message_remove
message_remove-IsValid c mid md_in v = remove_in (unlink mid c.in_messages) refl
  where
    remove_in :
        (o : Option (Message × List Message))
        → unlink mid c.in_messages ≡ o
        → IsValid (message_remove c mid md_in).2
    remove_in none e = rw (e, message_remove) v
    remove_in (some (m, left)) e =
        rw (e, message_remove)
          (record {
            in_len = omega (arith, v.in_len, length-unlink mid c.in_messages m left e);
            out_len = v.out_len;
            ins = (All-unlink IsQos2 mid c.in_messages m left e v.ins).0;
          })
message_remove-IsValid c mid md_out v = remove_out (unlink mid c.out_messages) refl
  where
    remove_out :
        (o : Option (Message × List Message))
        → unlink mid c.out_messages ≡ o
        → IsValid (message_remove c mid md_out).2
    remove_out none e = rw (e, message_remove) v
    remove_out (some (m, left)) e =
        rw (e, message_remove) (removed_out c mid m left e v _ refl refl refl)

length-update_state :
    (now mid : ℕ) (s : MsgState) (ms ms' : List Message)
    → update_state now mid s ms ≡ some ms'
    → length ms' ≡ length ms
unfolding update_state
length-update_state now mid s [] ms' e = cc
length-update_state now mid s (m ∷ ms) ms' e =
    updated (update_state now mid s ms) refl (length-update_state now mid s ms)
  where
    updated :
        (o : Option (List Message))
        → update_state now mid s ms ≡ o
        → ((l : List Message) → update_state now mid s ms ≡ some l → length l ≡ length ms)
        → length ms' ≡ suc (length ms)
    updated none q ih = elim (Bool-cases (m.mid == mid)) [
      | inl hit ↦ rw (← some-injective _ _ (rw hit at e)) refl
      | inr miss ↦ cc (rw (miss, q) at e)
    ]
    updated (some l) q ih = elim (Bool-cases (m.mid == mid)) [
      | inl hit ↦ rw (← some-injective _ _ (rw hit at e)) refl
      | inr miss ↦ rw (← some-injective _ _ (rw (miss, q) at e)) (ap suc (ih l q))
    ]

pub message_out_update-IsValid :
    (now : ℕ) (c : Client) (mid : ℕ) (s : MsgState)
    → IsValid c
    → IsValid (message_out_update now c mid s).1
unfolding message_out_update
message_out_update-IsValid now c mid s v = updated (update_state now mid s c.out_messages) refl
  where
    updated :
        (o : Option (List Message))
        → update_state now mid s c.out_messages ≡ o
        → IsValid (message_out_update now c mid s).1
    updated none e = rw (e, message_out_update) v
    updated (some ms) e =
        rw (e, message_out_update)
          (record {
            in_len = v.in_len;
            out_len = omega (arith, v.out_len, length-update_state now mid s c.out_messages ms e);
            ins = v.ins;
          })
