-- ===== src/Client/Inflight.antt =====
-- The count of messages in flight, and its limit.
use kocom.Prelude.{
  ℕ, suc, ◌+◌, ◌-◌, ◌≤◌, ◌≡◌, refl, sym, ap, ◌∙◌, ◌⊎◌, inl, inr, Bool, true, false, not, some, List,
  [], ◌∷◌, ◌++◌, All, All-append, ℤ, pos, pred_ℤ, succ_ℤ, arith, ltb, ◌&&◌, ◌==◌, if◌then◌else◌,
  Bool-cases,
}
use mathlib.Core.Path.{subst}
use kocom.Proto.{md_out, state_eq, invalid}
use kocom.Client.{Message, Client, message_queue, unlink, restart, message_remove, has_room}
use kocom.Client.Unlink.{unlink-Unlinked, All-unlink}
use kocom.Client.Queues.{restart-Restarted}
use kocom.Client.Restart.{waits, started, restart_induction}

abbrev pub IsQos : Message → Type 0
IsQos m = m.qos ≤ 2

-- The message is in flight: it has been sent and its exchange is not over.
abbrev pub is_active : Message → Bool
is_active m = ltb 0 m.qos && not (state_eq m.state invalid)

unfoldable pub active : List Message → ℕ
active [] = 0
active (m ∷ ms) = (if is_active m then 1 else 0) + active ms

-- The count is exact, and within the limit; the limit 0 stands for none.
pub record IsCounted (inflight : ℤ) (max : ℕ) (ms : List Message) : Type 0 where
  pub exact : inflight ≡ pos (active ms)
  pub limited : (max ≡ 0) ⊎ (active ms ≤ max)
  pub qos : All IsQos ms

active-nil : active [] ≡ 0
unfolding active
active-nil = refl

pub active-append : (xs ys : List Message) → active (xs ++ ys) ≡ active xs + active ys
unfolding active
active-append [] ys = omega arith
active-append (x ∷ xs) ys = omega (arith, active-append xs ys)

abbrev CountedAt : ℕ → ℤ → ℕ → Type 0
CountedAt n inflight max = (inflight ≡ pos n) × ((max ≡ 0) ⊎ (n ≤ max))

-- Behind `k` messages in flight.
abbrev KeepsCount : List Message → Client → ℕ × List Message × Client → Type 0
KeepsCount ms c r =
    (k : ℕ)
    → All IsQos ms
    → CountedAt (k + active ms) c.inflight_messages c.max_inflight_messages
    → CountedAt (k + active r.1) r.2.inflight_messages c.max_inflight_messages × All IsQos r.1

regroup :
    {n m : ℕ} (inflight : ℤ) (max : ℕ) → n ≡ m → CountedAt n inflight max → CountedAt m inflight max
regroup inflight max e h = subst (λ n. CountedAt n inflight max) e h

start_active :
    (m : Message)
    → waits m ≡ true
    → IsQos m
    → (is_active m ≡ false) × (is_active (started m) ≡ true)
start_active m w q = ground arith

one_more :
    (n : ℕ) (inflight : ℤ) (max : ℕ)
    → has_room inflight max ≡ true
    → CountedAt n inflight max
    → CountedAt (suc n) (succ_ℤ inflight) max
one_more n inflight max room h = (ap succ_ℤ h.0, limit)
  where
    room_at : has_room (pos n) max ≡ true
    room_at = rw h.0 at room

    limit : (max ≡ 0) ⊎ (suc n ≤ max)
    limit = elim (Bool-cases (max == 0)) [
      | inl none_set ↦ inl (ground arith)
      | inr set ↦ inr (ground arith)
    ]

active-cons :
    (m : Message) (ms : List Message) (k : ℕ)
    → k + active (m ∷ ms) ≡ (k + (if is_active m then 1 else 0)) + active ms
unfolding active
active-cons m ms k = omega arith

active-idle : (m : Message) (ms : List Message) → is_active m ≡ false → active (m ∷ ms) ≡ active ms
unfolding active
active-idle m ms h = rw h (omega arith)

active-busy :
    (m : Message) (ms : List Message) → is_active m ≡ true → active (m ∷ ms) ≡ suc (active ms)
unfolding active
active-busy m ms h = rw h (omega arith)

restart-KeepsCount : (ms : List Message) (c : Client) → KeepsCount ms c (restart ms c)
restart-KeepsCount =
    restart_induction KeepsCount (λ c k q h. (h, q)) (λ m ms c k q h. (h, q))
      (λ m ms c r w ih k q h.
        let (a, b) =
          ih (k + (if is_active m then 1 else 0)) q.1 (regroup _ _ (active-cons m ms k) h) in
        (regroup _ _ (sym (active-cons m r.1 k)) a, (q.0, b)))
      (λ m ms c r room w ih k q h.
        let (idle, busy) = start_active m w q.0 in
        let (a, b) = ih (suc k) q.1 (
          regroup _ _ (omega (arith, active-idle m ms idle))
            (one_more (k + active (m ∷ ms)) c.inflight_messages c.max_inflight_messages room h)) in
        (regroup _ _ (omega (arith, active-busy (started m) r.1 busy)) a, (q.0, b)))
      (λ m ms c rc room w k q h.
        let (idle, busy) = start_active m w q.0 in
        (
          regroup _ _ (omega (arith, active-idle m ms idle, active-busy (started m) ms busy))
              (one_more (k + active (m ∷ ms)) c.inflight_messages c.max_inflight_messages room h),
          q,
        ))

abbrev pub Counts : Client → Type 0
Counts c = IsCounted c.inflight_messages c.max_inflight_messages c.out_messages

active-unlink :
    (mid : ℕ) (ms : List Message) (m : Message) (left : List Message)
    → unlink mid ms ≡ some (m, left)
    → active ms ≡ (if is_active m then 1 else 0) + active left
unfolding active
active-unlink mid ms m left e =
    let u = unlink-Unlinked mid ms m left e in
    omega (
      arith,
      ap active u.before,
      ap active u.after,
      active-append u.pre (m ∷ u.post),
      active-append u.pre u.post,
    )

one_less :
    (n : ℕ) (b : Bool) (inflight : ℤ) (max : ℕ)
    → CountedAt ((if b then 1 else 0) + n) inflight max
    → CountedAt n (if b then pred_ℤ inflight else inflight) max
one_less n true inflight max h =
    let e : 1 + n ≡ suc n = omega arith in (ap pred_ℤ (h.0 ∙ ap pos e), ground arith)
one_less n false inflight max h = let e : 0 + n ≡ n = omega arith in (h.0 ∙ ap pos e, ground arith)

counted :
    (r : ℕ × List Message × Client) (max : ℕ)
    → CountedAt (active r.1) r.2.inflight_messages max
    → All IsQos r.1
    → r.2.max_inflight_messages ≡ max
    → IsCounted r.2.inflight_messages r.2.max_inflight_messages r.1
counted r max h q same = record { exact = h.0; limited = rw same h.1; qos = q }

-- Where the count of messages in flight is exact and within the limit, removing an outgoing
-- message that has been started, and then starting messages that wait, as many as there is room
-- for, leaves the count exact and within the limit, whatever the send functions return.
pub message_remove-Counts :
    (c : Client) (mid : ℕ) (m : Message) (left : List Message)
    → unlink mid c.out_messages ≡ some (m, left)
    → is_active m ≡ ltb 0 m.qos
    → Counts c
    → Counts (message_remove c mid md_out).2
unfolding message_remove
message_remove-Counts c mid m left e on v =
    let (ql, qm) = All-unlink IsQos mid c.out_messages m left e v.qos in
    let d : Client = record c {
      out_queue_len = c.out_queue_len - 1;
      inflight_messages = if ltb 0 m.qos then pred_ℤ c.inflight_messages else c.inflight_messages;
    } in
    let fewer =
      one_less (active left) (ltb 0 m.qos) c.inflight_messages c.max_inflight_messages (
        rw (← on) (regroup _ _ (active-unlink mid c.out_messages m left e) (v.exact, v.limited))) in
    let first : active left ≡ 0 + active left = omega arith in
    let (h, q) = restart-KeepsCount left d 0 ql (regroup _ _ first fewer) in
    let last : 0 + active (restart left d).1 ≡ active (restart left d).1 = omega arith in
    rw (e, message_remove)
      (counted (restart left d) c.max_inflight_messages (regroup _ _ last h) q
        (restart-Restarted left d).max)

-- A message that is queued counts exactly if there is room for it.
pub message_queue-Counts :
    (c : Client) (m : Message)
    → IsQos m
    → is_active m ≡ (ltb 0 m.qos && has_room c.inflight_messages c.max_inflight_messages)
    → Counts c
    → Counts (message_queue c m md_out).1
unfolding message_queue
message_queue-Counts c m q on v = elim (Bool-cases (ltb 0 m.qos)) [
  | inr no_qos ↦ rw (no_qos) (same_count (ground arith))
  | inl some_qos ↦ elim (Bool-cases (has_room c.inflight_messages c.max_inflight_messages)) [
    | inr full ↦ rw (some_qos, full) (same_count (ground arith))
    | inl room ↦
        let e : suc (active c.out_messages) ≡ active (c.out_messages ++ (m ∷ [])) = omega (
          arith,
          active-append c.out_messages (m ∷ []),
          active-busy m [] (ground arith),
          active-nil,
        ) in
        let (ex, li) = regroup _ _ e (
          one_more (active c.out_messages) c.inflight_messages c.max_inflight_messages room
            (v.exact, v.limited)) in
        rw (some_qos, room) (record { exact = ex; limited = li; qos = queued_qos })
  ]
]
  where
    queued_qos : All IsQos (c.out_messages ++ (m ∷ []))
    queued_qos = All-append IsQos c.out_messages (m ∷ []) v.qos (q, tt)

    same_count :
        is_active m ≡ false
        → IsCounted c.inflight_messages c.max_inflight_messages (c.out_messages ++ (m ∷ []))
    same_count idle =
        let e : active c.out_messages ≡ active (c.out_messages ++ (m ∷ [])) =
          omega (arith, active-append c.out_messages (m ∷ []), active-idle m [] idle, active-nil) in
        let (ex, li) = regroup _ _ e (v.exact, v.limited) in
        record { exact = ex; limited = li; qos = queued_qos }
