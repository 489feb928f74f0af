-- ===== src/Client/Reset.antt =====
-- _mosquitto_messages_reconnect_reset of lib/messages_mosq.c on well-formed queues.
use kocom.Prelude.{
  ℕ, suc, ◌≡◌, refl, ap, some, List, [], ◌∷◌, All, ℤ, pos, succ_ℤ, arith, length, ltb,
  if◌then◌else◌,
}
use mathlib.Core.List.{map}
use kocom.Client.{Message, Client, reset_in_rest, reset_in, reset_out, messages_reconnect_reset}
use kocom.Client.Queues.{IsQos2, IsValid}

abbrev pub rested : Message → Message
rested m = record m { timestamp = 0 }

-- What a message is about, which no reset changes.
abbrev pub contents : Message → ℕ × List ℕ × List ℕ × ℕ
contents m = (m.mid, m.topic, m.payload, m.qos)

reset_in_rest_all :
    (ms : List Message) → All IsQos2 ms → reset_in_rest ms ≡ (length ms, map rested ms)
unfolding reset_in_rest
reset_in_rest_all [] h = refl
reset_in_rest_all (m ∷ ms) h = rw (reset_in_rest_all ms h.1) (ground (arith, h.0))

reset_in_all : (ms : List Message) → All IsQos2 ms → reset_in ms ≡ some (length ms, map rested ms)
unfolding reset_in
reset_in_all [] h = refl
reset_in_all (m ∷ ms) h = rw (reset_in_rest_all ms h.1) (ground (arith, h.0))

reset_out_kept :
    (max : ℕ) (inflight : ℤ) (ms : List Message)
    → ((reset_out max inflight ms).0 ≡ length (reset_out max inflight ms).2)
      × (map contents (reset_out max inflight ms).2 ≡ map contents ms)
unfolding reset_out
reset_out_kept max inflight [] = (refl, refl)
reset_out_kept max inflight (m ∷ ms) =
    let (n, k) = reset_out_kept max (if ltb 0 m.qos then succ_ℤ inflight else inflight) ms in
    (omega arith, ap (λ l. contents m ∷ l) k)

rested_len : (ms : List Message) → length ms ≡ length (map rested ms)
rested_len [] = refl
rested_len (m ∷ ms) = ap suc (rested_len ms)

rested_all : (ms : List Message) → All IsQos2 ms → All IsQos2 (map rested ms)
rested_all [] h = tt
rested_all (m ∷ ms) h = (h.0, rested_all ms h.1)

abbrev after : Client → Client
after c =
    let r = reset_out c.max_inflight_messages (pos 0) c.out_messages in
    record c {
      in_queue_len = length c.in_messages;
      in_messages = map rested c.in_messages;
      out_queue_len = r.0;
      inflight_messages = r.1;
      out_messages = r.2;
    }

-- On well-formed queues the reset never reads behind the end of a queue: it succeeds and leaves the
-- queues well formed, with every incoming message in its place and every outgoing message with its
-- id, topic, payload and QoS.
pub messages_reconnect_reset-IsValid :
    (c : Client)
    → IsValid c
    → (c' : Client) × (messages_reconnect_reset c ≡ some c')
      × IsValid c'
      × (c'.in_messages ≡ map rested c.in_messages)
      × (map contents c'.out_messages ≡ map contents c.out_messages)
unfolding messages_reconnect_reset
messages_reconnect_reset-IsValid c v =
    let (n, k) = reset_out_kept c.max_inflight_messages (pos 0) c.out_messages in
    (
      after c,
      rw (reset_in_all c.in_messages v.ins, messages_reconnect_reset) refl,
      record {
        in_len = rested_len c.in_messages;
        out_len = n;
        ins = rested_all c.in_messages v.ins;
      },
      refl,
      k,
    )
