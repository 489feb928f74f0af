-- ===== src/Client/Restart.antt =====
-- The loop of _mosquitto_message_remove that sends waiting messages, round by round.
use kocom.Prelude.{
  ℕ, ◌≡◌, Bool, true, false, List, [], ◌∷◌, ◌++◌, ltb, succ_ℤ, ◌&&◌, ◌==◌, inl, inr, Bool-cases,
}
use kocom.Proto.{err_success, state_eq, invalid}
use kocom.Client.{
  Message, Client, send, restart, has_room, start_state, tail_rcs, head_rc, sent_publish,
}

-- The rounds of `restart`: there is no more room; the message does not wait; it is sent; the send
-- function fails.
abbrev pub waits : Message → Bool
waits m = ltb 0 m.qos && state_eq m.state invalid

abbrev pub started : Message → Message
started m = record m { state = start_state m.qos m.state }

abbrev pub after_start : Message → Client → Client
after_start m c = record c {
  inflight_messages = succ_ℤ c.inflight_messages;
  rcs = tail_rcs c.rcs;
  events = c.events ++ (sent_publish (started m) ∷ []);
}

module _ (m : Message) (ms : List Message) (c : Client) where
  pub restart_stops :
      has_room c.inflight_messages c.max_inflight_messages ≡ false
      → restart (m ∷ ms) c ≡ (err_success, m ∷ ms, c)
  unfolding restart
  restart_stops h = rw h

  pub restart_passes :
      has_room c.inflight_messages c.max_inflight_messages ≡ true
      → waits m ≡ false
      → restart (m ∷ ms) c ≡ ((restart ms c).0, m ∷ (restart ms c).1, (restart ms c).2)
  unfolding restart
  restart_passes h w = rw (h, w)

  pub restart_sends :
      has_room c.inflight_messages c.max_inflight_messages ≡ true
      → waits m ≡ true
      → (head_rc c.rcs == 0) ≡ true
      → restart (m ∷ ms) c ≡ (
        (restart ms (after_start m c)).0,
        started m ∷ (restart ms (after_start m c)).1,
        (restart ms (after_start m c)).2,
      )
  unfolding restart send
  restart_sends h w z = rw (h, w, z)

  pub restart_fails :
      has_room c.inflight_messages c.max_inflight_messages ≡ true
      → waits m ≡ true
      → (head_rc c.rcs == 0) ≡ false
      → restart (m ∷ ms) c ≡ (head_rc c.rcs, started m ∷ ms, after_start m c)
  unfolding restart send
  restart_fails h w z = rw (h, w, z)

-- Induction along the rounds.
pub restart_induction {ℓ} :
    (P : List Message → Client → ℕ × List Message × Client → Type ℓ)
    → ((c : Client) → P [] c (err_success, [], c))
    → ((m : Message) (ms : List Message) (c : Client) → P (m ∷ ms) c (err_success, m ∷ ms, c))
    → ((m : Message) (ms : List Message) (c : Client) (r : ℕ × List Message × Client)
        → waits m ≡ false
        → P ms c r
        → P (m ∷ ms) c (r.0, m ∷ r.1, r.2))
    → ((m : Message) (ms : List Message) (c : Client) (r : ℕ × List Message × Client)
        → has_room c.inflight_messages c.max_inflight_messages ≡ true
        → waits m ≡ true
        → P ms (after_start m c) r
        → P (m ∷ ms) c (r.0, started m ∷ r.1, r.2))
    → ((m : Message) (ms : List Message) (c : Client) (rc : ℕ)
        → has_room c.inflight_messages c.max_inflight_messages ≡ true
        → waits m ≡ true
        → P (m ∷ ms) c (rc, started m ∷ ms, after_start m c))
    → (ms : List Message) (c : Client) → P ms c (restart ms c)
restart_induction P ends stops passes sends fails [] c = unfold restart in ends c
restart_induction P ends stops passes sends fails (m ∷ ms) c =
    elim (Bool-cases (has_room c.inflight_messages c.max_inflight_messages)) [
      | inr full ↦ rw (restart_stops m ms c full) (stops m ms c)
      | inl room ↦ elim (Bool-cases (waits m)) [
        | inr active ↦
            rw (restart_passes m ms c room active)
              (passes m ms c _ active (restart_induction P ends stops passes sends fails ms c))
        | inl w ↦ elim (Bool-cases (head_rc c.rcs == 0)) [
          | inr bad ↦ rw (restart_fails m ms c room w bad) (fails m ms c _ room w)
          | inl good ↦ rw (restart_sends m ms c room w good) (
              sends m ms c _ room w
                (restart_induction P ends stops passes sends fails ms (after_start m c)))
        ]
      ]
    ]
