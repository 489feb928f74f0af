-- ===== src/Handle/Within.antt =====
-- The handlers of received packets stay inside the packet and keep the client's queues well formed.
use kocom.Prelude.{
  ℕ, zero, suc, bit_and, ◌-◌, ◌/◌, ◌≡◌, Bool, true, false, refl, arith, ltb, ◌==◌, not, ◌&&◌,
  if◌then◌else◌, Option, none, some, inl, inr, Bool-cases, List, [],
}
use kocom.Proto.{err_protocol, err_nomem, md_in, md_out, wait_for_pubcomp}
use kocom.Packet.{
  Packet, Read, got, failed, fault, ◌>>=◌, read_byte, read_uint16, read_string, read_bytes,
}
use kocom.Packet.Bounds.{
  IsReadable, Advances, Stays, Advances-IsReadable, read_byte-Stays, read_bytes-Stays,
  read_uint16-Stays, read_string-Stays,
}
use kocom.Client.{
  Client, Message, Event, on_message, send, notify, message_remove, message_delete,
  message_out_update,
}
use kocom.Client.Queues.{
  IsValid, message_queue-IsValid, message_remove-IsValid, message_out_update-IsValid,
}
use kocom.Handle.{
  Handled, after_read, handle_pingreq, handle_pingresp, handle_pubackcomp, handle_pubrec,
  handle_pubrel, handle_suback, read_granted, handle_unsuback, handle_connack, handle_publish,
  deliver, packet_handle, Memory, is_blank,
}

-- A handler has run to its end, inside the packet, and has left the client's queues well formed.
abbrev pub Sound : Handled → Type 0
Sound none = ⊥
Sound (some (rc, p, c)) = IsReadable p × IsValid c

here : (p : Packet) → IsReadable p → Advances p p
here p hp = record {
  same_payload = refl;
  same_length = refl;
  forward = omega arith;
  within = hp.within;
}

onwards : {A : Type 0} {p q : Packet} (r : Read A) → Advances p q → Stays q r → Stays p r
onwards (got a s) h k = ground arith
onwards (failed rc s) h k = ground arith
onwards fault h k = k

Stays->>= :
    {A B : Type 0} {p : Packet} (r : Read A) (f : A → Packet → Read B)
    → Stays p r
    → ((a : A) (q : Packet) → Advances p q → Stays q (f a q))
    → Stays p (r >>= f)
Stays->>= (got a q) f h k = onwards (f a q) h (k a q h)
Stays->>= (failed rc q) f h k = h
Stays->>= fault f h k = h

-- What is done with a value that a reader delivers.
Sound-after_read {ℓ} :
    {A : Type ℓ} (c : Client) (p : Packet) (r : Read A) (f : A → Packet → Handled)
    → IsReadable p
    → IsValid c
    → Stays p r
    → ((a : A) (q : Packet) → r ≡ got a q → IsReadable q → Sound (f a q))
    → Sound (after_read c r f)
Sound-after_read c p (got a q) f hp hc s k = k a q refl (Advances-IsReadable hp s)
Sound-after_read c p (failed rc q) f hp hc s k = (Advances-IsReadable hp s, hc)
Sound-after_read c p fault f hp hc s k = s

send-IsValid : (e : Event) (c : Client) → IsValid c → IsValid (send e c).1
unfolding send
send-IsValid e c v = record { in_len = v.in_len; out_len = v.out_len; ins = v.ins }

notify-IsValid : (e : Event) (c : Client) → IsValid c → IsValid (notify e c)
unfolding notify
notify-IsValid e c v = record { in_len = v.in_len; out_len = v.out_len; ins = v.ins }

pingreq-Sound : (p : Packet) (c : Client) → IsReadable p → IsValid c → Sound (handle_pingreq p c)
unfolding handle_pingreq
pingreq-Sound p c hp hc = (hp, send-IsValid _ c hc)

pingresp-Sound : (p : Packet) (c : Client) → IsReadable p → IsValid c → Sound (handle_pingresp p c)
unfolding handle_pingresp
pingresp-Sound p c hp hc = (hp, record { in_len = hc.in_len; out_len = hc.out_len; ins = hc.ins })

unsuback-Sound : (p : Packet) (c : Client) → IsReadable p → IsValid c → Sound (handle_unsuback p c)
unfolding handle_unsuback
unsuback-Sound p c hp hc =
    Sound-after_read c p (read_uint16 p) _ hp hc (read_uint16-Stays p hp)
      (λ mid q e hq. (hq, notify-IsValid _ c hc))

pubackcomp-Sound :
    (p : Packet) (c : Client) → IsReadable p → IsValid c → Sound (handle_pubackcomp p c)
unfolding handle_pubackcomp message_delete
pubackcomp-Sound p c hp hc =
    Sound-after_read c p (read_uint16 p) _ hp hc (read_uint16-Stays p hp) (λ mid q e hq.
      let v = message_remove-IsValid c mid md_out hc in
      elim (Bool-cases ((message_remove c mid md_out).0 == 0)) [
        | inl good ↦ rw good (hq, notify-IsValid _ _ v)
        | inr bad ↦ rw bad (hq, v)
      ])

connack-Sound : (p : Packet) (c : Client) → IsReadable p → IsValid c → Sound (handle_connack p c)
unfolding handle_connack notify
connack-Sound p c hp hc =
    Sound-after_read c p (read_byte p) _ hp hc (read_byte-Stays p hp) (λ _ q e hq.
      Sound-after_read c q (read_byte q) _ hq hc (read_byte-Stays q hq)
        (λ result r er hr. ground (arith, hr, hc.in_len, hc.out_len, hc.ins)))

deliver-Sound :
    (p : Packet) (c : Client) (m : Message) → IsReadable p → IsValid c → Sound (deliver p c m)
unfolding deliver
deliver-Sound p c m hp hc = elim (Bool-cases (m.qos == 0)) [
  | inl q0 ↦ rw q0 (hp, notify-IsValid _ c hc)
  | inr n0 ↦ elim (Bool-cases (m.qos == 1)) [
    | inl q1 ↦ rw (n0, q1) (hp, notify-IsValid _ _ (send-IsValid _ c hc))
    | inr n1 ↦ elim (Bool-cases (m.qos == 2)) [
      | inl q2 ↦
          rw (n0, n1, q2) (hp, message_queue-IsValid _ _ md_in (send-IsValid _ c hc) (ground arith))
      | inr n2 ↦ rw (n0, n1, n2) (hp, hc)
    ]
  ]
]

pubrec-Sound :
    (now : ℕ) (p : Packet) (c : Client) → IsReadable p → IsValid c → Sound (handle_pubrec now p c)
unfolding handle_pubrec
pubrec-Sound now p c hp hc =
    Sound-after_read c p (read_uint16 p) _ hp hc (read_uint16-Stays p hp) (λ mid q e hq.
      let v = message_out_update-IsValid now c mid wait_for_pubcomp hc in
      elim (Bool-cases ((message_out_update now c mid wait_for_pubcomp).0 == 0)) [
        | inl good ↦ rw good (hq, send-IsValid _ _ v)
        | inr bad ↦ rw bad (hq, v)
      ])

-- Whether the message is handed to the program or not.
notified :
    (o : Option Message) (b : Bool) (e : Message → Event) (c : Client)
    → IsValid c
    → IsValid (elim o [ none ↦ c | some m ↦ if b then notify (e m) c else c ])
notified none b e c v = v
notified (some m) true e c v = notify-IsValid (e m) c v
notified (some m) false e c v = v

pubrel-Sound : (p : Packet) (c : Client) → IsReadable p → IsValid c → Sound (handle_pubrel p c)
unfolding handle_pubrel
pubrel-Sound p c hp hc = elim (Bool-cases (c.mqtt311 && not (bit_and p.command 0x0f == 2))) [
  | inl bad ↦ rw bad (hp, hc)
  | inr good ↦ rw good (
      Sound-after_read c p (read_uint16 p) _ hp hc (read_uint16-Stays p hp) (λ mid q e hq. (
        hq,
        send-IsValid _ _ (
            notified (message_remove c mid md_in).1 ((message_remove c mid md_in).0 == 0) on_message
              _ (message_remove-IsValid c mid md_in hc)),
      )))
]

-- The loop over the granted QoS values stays inside the payload.
granted-Stays : (fuel : ℕ) (p : Packet) → IsReadable p → Stays p (read_granted fuel p)
unfolding read_granted
granted-Stays zero p hp = here p hp
granted-Stays (suc fuel) p hp = elim (Bool-cases (ltb p.pos p.remaining_length)) [
  | inr done ↦ rw done (here p hp)
  | inl more ↦ rw more (
      Stays->>= (read_byte p) _ (read_byte-Stays p hp) (λ qos q a.
        let hq = Advances-IsReadable hp a in
        Stays->>= (read_granted fuel q) _ (granted-Stays fuel q hq)
          (λ l r b. here r (Advances-IsReadable hq b))))
]

suback-Sound :
    (mem : Bool) (p : Packet) (c : Client)
    → IsReadable p
    → IsValid c
    → Sound (handle_suback mem p c)
unfolding handle_suback
suback-Sound true p c hp hc =
    Sound-after_read c p (read_uint16 p) _ hp hc (read_uint16-Stays p hp) (λ mid q e hq.
      Sound-after_read c q _ _ hq hc (granted-Stays _ q hq)
        (λ l r er hr. (hr, notify-IsValid _ c hc)))
suback-Sound false p c hp hc =
    Sound-after_read c p (read_uint16 p) _ hp hc (read_uint16-Stays p hp) (λ mid q e hq. (hq, hc))

mid-Stays :
    (qos : ℕ) (p : Packet) → IsReadable p → Stays p (if ltb 0 qos then read_uint16 p else got 0 p)
mid-Stays qos p hp = elim (Bool-cases (ltb 0 qos)) [
  | inl some_qos ↦ rw some_qos (read_uint16-Stays p hp)
  | inr no_qos ↦ rw no_qos (here p hp)
]

payload-Sound :
    (b : Bool) (c : Client) (r : Packet) (m : List ℕ → Message)
    → IsReadable r
    → IsValid c
    → Sound (
        if ltb 0 (r.remaining_length - r.pos)
        then (if b
            then after_read c
                (read_bytes (r.remaining_length - r.pos) r)
                (λ payload t. deliver t c (m payload))
            else some (err_nomem, r, c))
        else deliver r c (m []))
payload-Sound b c r m hr hc = elim (Bool-cases (ltb 0 (r.remaining_length - r.pos))) [
  | inr none_left ↦ rw none_left (deliver-Sound r c _ hr hc)
  | inl left ↦ elim (Bool-cases b) [
    | inr fails ↦ rw (left, fails) (hr, hc)
    | inl works ↦
        rw (left, works)
          (Sound-after_read c r _ _ hr hc
            (read_bytes-Stays _ r (let s = hr.small in omega arith) hr)
            (λ payload t et ht. deliver-Sound t c _ ht hc))
  ]
]

publish-Sound :
    (now : ℕ) (mem : Memory) (p : Packet) (c : Client)
    → IsReadable p
    → IsValid c
    → Sound (handle_publish now mem p c)
unfolding handle_publish
publish-Sound now mem p c hp hc = elim (Bool-cases mem.message) [
  | inr fails ↦ rw fails (hp, hc)
  | inl works ↦ rw works (
      Sound-after_read c p (read_string mem.topic p) _ hp hc (read_string-Stays mem.topic p hp)
        (λ topic q e hq. elim (Bool-cases (is_blank topic)) [
          | inl empty ↦ rw empty (hq, hc)
          | inr full ↦ rw full (
              Sound-after_read c q
                (if ltb 0 (bit_and p.command 0x06 / 2) then read_uint16 q else got 0 q) _ hq hc
                (mid-Stays (bit_and p.command 0x06 / 2) q hq)
                (λ mid r er hr. payload-Sound mem.payload c r _ hr hc))
        ]))
]

-- On a received packet, whatever its command and its bytes are, and on well-formed queues, the
-- client's packet handler runs to its end: it accesses no byte outside the payload, leaves the
-- packet readable with the position inside it, and leaves the queues well formed.
pub packet_handle-Sound :
    (now : ℕ) (mem : Memory) (p : Packet) (c : Client)
    → IsReadable p
    → IsValid c
    → Sound (packet_handle now mem p c)
unfolding packet_handle
packet_handle-Sound now mem p c hp hc =
    let mine : Sound (some (err_protocol, p, c)) = (hp, hc) in
    ground (
      arith,
      pingreq-Sound p c hp hc,
      pingresp-Sound p c hp hc,
      pubackcomp-Sound p c hp hc,
      publish-Sound now mem p c hp hc,
      pubrec-Sound now p c hp hc,
      pubrel-Sound p c hp hc,
      connack-Sound p c hp hc,
      suback-Sound mem.granted p c hp hc,
      unsuback-Sound p c hp hc,
    )
