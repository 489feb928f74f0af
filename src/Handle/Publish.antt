-- ===== src/Handle/Publish.antt =====
-- mosquitto_publish of lib/mosquitto.c on the client's queue of outgoing messages.
use kocom.Prelude.{
  ℕ, ◌≤◌, ◌≡◌, Bool, true, false, refl, arith, ltb, ◌==◌, not, ◌&&◌, ◌||◌, if◌then◌else◌, List,
  length, inl, inr, Bool-cases, some,
}
use kocom.Proto.{mqtt_max_payload, err_success, err_nomem, md_out}
use kocom.Topic.{pub_topic_check}
use kocom.Client.{Client, sent_publish, Message, Event, send, message_queue, has_room}
use kocom.Client.Queues.{IsValid, message_queue-IsValid}
use kocom.Client.Inflight.{Counts, message_queue-Counts, is_active}
use kocom.Handle.{mid_generate, publish}

-- What the queues of a client have to satisfy, all together.
abbrev pub IsSafe : Client → Type 0
IsSafe c = IsValid c × Counts c

send-IsSafe : (e : Event) (c : Client) → IsSafe c → IsSafe (send e c).1
unfolding send
send-IsSafe e c (v, n) = (
  record { in_len = v.in_len; out_len = v.out_len; ins = v.ins },
  record { exact = n.exact; limited = n.limited; qos = n.qos },
)

mid_generate-IsSafe : (c : Client) → IsSafe c → IsSafe (mid_generate c).1
unfolding mid_generate
mid_generate-IsSafe c (v, n) = (
  record { in_len = v.in_len; out_len = v.out_len; ins = v.ins },
  record { exact = n.exact; limited = n.limited; qos = n.qos },
)

-- The code of message_queue tells whether the message may be sent at once.
message_queue_code :
    (c : Client) (m : Message)
    → ltb 0 m.qos ≡ true
    → ((message_queue c m md_out).0 == 0) ≡ has_room c.inflight_messages c.max_inflight_messages
unfolding message_queue
message_queue_code c m q = ground arith

message_queue-IsSafe :
    (c : Client) (m : Message)
    → m.qos ≤ 2
    → is_active m ≡ (ltb 0 m.qos && has_room c.inflight_messages c.max_inflight_messages)
    → IsSafe c
    → IsSafe (message_queue c m md_out).1
message_queue-IsSafe c m q on (v, n) =
    (message_queue-IsValid c m md_out v refl, message_queue-Counts c m q on n)

-- The branches of mosquitto_publish behind its checks.
accepted :
    (mem : Bool) (d : Client) (m started : Message)
    → m.qos ≤ 2
    → IsSafe d
    → is_active m ≡ false
    → is_active started ≡ ltb 0 m.qos
    → started.qos ≡ m.qos
    → IsSafe
        (if m.qos == 0
          then send (sent_publish m) d
          else if not mem
          then (err_nomem, d)
          else if (message_queue d m md_out).0 == 0
          then send (sent_publish started) (message_queue d started md_out).1
          else (err_success, (message_queue d m md_out).1)).1
accepted mem d m started q v idle on same = elim (Bool-cases (m.qos == 0)) [
  | inl zero_qos ↦ rw zero_qos (send-IsSafe _ d v)
  | inr some_qos ↦ elim (Bool-cases (not mem)) [
    | inl out ↦ rw (some_qos, out) v
    | inr enough ↦ elim (Bool-cases ((message_queue d m md_out).0 == 0)) [
      | inl now_sent ↦
          rw (some_qos, enough, now_sent)
            (send-IsSafe _ _ (
              message_queue-IsSafe d started (rw same q)
                (let room = message_queue_code d m (ground arith) in ground arith) v))
      | inr waits ↦
          rw (some_qos, enough, waits)
            (message_queue-IsSafe d m q
              (let room = message_queue_code d m (ground arith) in ground arith) v)
    ]
  ]
]

-- On well-formed queues with an exact count of messages in flight, within its limit,
-- mosquitto_publish leaves them so, on every branch and whatever the send functions return.
pub publish-IsSafe :
    (now : ℕ) (mem : Bool) (c : Client) (topic payload : List ℕ) (qos : ℕ) (retain : Bool)
    → IsSafe c
    → IsSafe (publish now mem c topic payload qos retain).1
unfolding publish
publish-IsSafe now mem c topic payload qos retain v =
    elim (Bool-cases (ltb 2 qos || length topic == 0)) [
      | inl bad ↦ rw bad v
      | inr good ↦ elim (Bool-cases (ltb mqtt_max_payload (length payload))) [
        | inl long ↦ rw (good, long) v
        | inr short ↦ elim (Bool-cases (not (pub_topic_check (some topic) == err_success))) [
          | inl refused ↦ rw (good, short, refused) v
          | inr passed ↦
              rw (good, short, passed)
                (accepted mem _ _ _ (ground arith) (mid_generate-IsSafe c v) (ground arith)
                  (ground arith) refl)
        ]
      ]
    ]
