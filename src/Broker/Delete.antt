-- ===== src/Broker/Delete.antt =====
-- mqtt3_db_message_delete, mqtt3_db_messages_delete, mqtt3_db_message_update and
-- mqtt3_db_message_timeout_check of src/database.c.
use kocom.Prelude.{
  ℕ, zero, suc, ◌+◌, ◌≤◌, ◌≡◌, refl, Bool, true, false, ◌&&◌, Option, some, List, [], ◌∷◌, ◌++◌,
  arith, length, take, drop, length-drop, take_append_drop, append_assoc, ltb, leb, ◌==◌,
  if◌then◌else◌, inl, inr, Bool-cases, append-nil,
}
use kocom.Proto.{MsgState, Direction, direction_eq, state_eq, queued, wait_for_pubrel}
use kocom.Broker.{Stored, ClientMsg, Context, Limits, promoted, count_removed}
use kocom.Broker.Change.{
  delete_loop, message_delete, message_update, deref_all, messages_delete, timeout_check,
}
use kocom.Broker.Store.{addrs, IsTracked, store_deref-IsTracked}
use kocom.Broker.Keeps.{
  qos12, IsKept, Keeps, IsAlike, IsAlike-refl, IsKept-alike, remove_between-IsKept, IsAlike-cons,
  update-IsAlike, timeout_check-IsAlike,
}

-- The loop has ended well.
abbrev Ends : (ℕ → ℕ) → Option (List Stored × Context) → Type 0
Ends others o =
    (store' : List Stored) × (c' : Context) × (o ≡ some (store', c')) × Keeps others store' c'

-- What the loop does to a message that it passes.
abbrev passed : ℕ → ℕ → ℕ → ClientMsg → ClientMsg
passed now max index m =
    if state_eq m.state queued && leb (index + 1) max
    then record (promoted wait_for_pubrel m) { timestamp = now }
    else m

passed-IsAlike :
    (now max index : ℕ) (before : List ClientMsg) (m : ClientMsg) (ms : List ClientMsg)
    → IsAlike (before ++ (m ∷ ms)) (before ++ (passed now max index m ∷ ms))
unfolding promoted
passed-IsAlike now max index [] m ms =
    elim (Bool-cases (state_eq m.state queued && leb (index + 1) max)) [
      | inl waiting ↦ rw waiting (IsAlike-cons m _ ms ms refl refl (IsAlike-refl ms))
      | inr other ↦ rw other (IsAlike-refl (m ∷ ms))
    ]
passed-IsAlike now max index (b ∷ before) m ms =
    IsAlike-cons b b _ _ refl refl (passed-IsAlike now max index before m ms)

delete_loop-Ends :
    (others : ℕ → ℕ) (fuel now max mid : ℕ) (dir : Direction) (before : List ClientMsg) (index : ℕ)
    (deleted : Bool) (ms : List ClientMsg) (store : List Stored) (c : Context)
    → length ms ≤ fuel
    → IsKept others store (before ++ ms) c.msg_count c.msg_count12
    → Ends others (delete_loop fuel now max mid dir before index deleted ms store c)
unfolding delete_loop count_removed
delete_loop-Ends others fuel now max mid dir before index deleted [] store c f k =
    (store, record c { msgs = before }, refl, rw (append-nil before) at k)
delete_loop-Ends others zero now max mid dir before index deleted (m ∷ ms) store c f k =
    absurd (omega arith)
delete_loop-Ends others (suc fuel) now max mid dir before index deleted (m ∷ ms) store c f k =
    let m' = passed now max index m in
    let k' = IsKept-alike _ _ (passed-IsAlike now max index before m ms) k in
    elim (Bool-cases (m.mid == mid && direction_eq m.direction dir)) [
      | inl hit ↦
          let (store', all, e, kept, len) =
            remove_between-IsKept others max store before m' ms c.msg_count c.msg_count12 k' in
          elim (Bool-cases (ltb max index)) [
            | inl over ↦
                (store', record (count_removed m' c) { msgs = all }, rw (hit, e, over) refl, kept)
            | inr more ↦
                let shorter : length (drop (length before) all) ≤ fuel =
                  omega (arith, length-drop (length before) all, len) in
                rw (hit, e, more)
                  (delete_loop-Ends others fuel now max mid dir (take (length before) all) index
                    true (drop (length before) all) store' (count_removed m' c) shorter
                    (rw (take_append_drop (length before) all) kept))
          ]
      | inr miss ↦ elim (Bool-cases (ltb max (index + 1) && deleted)) [
        | inl over ↦ (store, record c { msgs = before ++ (m' ∷ ms) }, rw (miss, over) refl, k')
        | inr more ↦
            rw (miss, more)
              (delete_loop-Ends others fuel now max mid dir (before ++ (m' ∷ [])) (index + 1)
                deleted ms store c (omega arith) (rw (append_assoc before (m' ∷ []) ms) k'))
      ]
    ]

-- Where the counts of references and of messages are exact, deleting the messages with an id ends,
-- within the fuel and without a fault; no pointer that is left dangles, and the counts stay exact.
pub message_delete-Keeps :
    (others : ℕ → ℕ) (now : ℕ) (lim : Limits) (store : List Stored) (c : Context) (mid : ℕ)
    (dir : Direction)
    → Keeps others store c
    → (store' : List Stored) × (c' : Context) × (message_delete now lim store c mid dir
        ≡ some (store', c'))
      × Keeps others store' c'
unfolding message_delete
message_delete-Keeps others now lim store c mid dir k =
    delete_loop-Ends others (length c.msgs) now lim.max_inflight mid dir [] 0 false c.msgs store c
      (omega arith) k

deref_all-IsTracked :
    (others : ℕ → ℕ) (ms : List ClientMsg) (store : List Stored)
    → IsTracked others store (addrs ms)
    → (store' : List Stored) × (deref_all ms store ≡ some store') × IsTracked others store' []
unfolding deref_all
deref_all-IsTracked others [] store t = (store, refl, t)
deref_all-IsTracked others (m ∷ ms) store t =
    let (s1, e1, t1, freed) = store_deref-IsTracked others store m.store (addrs ms) t in
    let (s2, e2, t2) = deref_all-IsTracked others ms s1 t1 in (s2, rw (e1, deref_all) e2, t2)

-- Where the counts of references and of messages are exact, deleting all messages of a client ends
-- without a fault, empties the list, and leaves the counts exact.
pub messages_delete-Keeps :
    (others : ℕ → ℕ) (store : List Stored) (c : Context)
    → Keeps others store c
    → (store' : List Stored) × (c' : Context) × (messages_delete store c ≡ some (store', c'))
      × Keeps others store' c'
      × (c'.msgs ≡ [])
unfolding messages_delete qos12
messages_delete-Keeps others store c k =
    let (store', e, t) = deref_all-IsTracked others c.msgs store k.tracked in
    (
      store',
      record c { msgs = []; msg_count = 0; msg_count12 = 0 },
      rw (e, messages_delete) refl,
      record { tracked = t; count = refl; count12 = refl },
      refl,
    )

-- Where the counts of references and of messages are exact, an update of a message's state and the
-- check for timeouts leave them exact.
pub message_update-Keeps :
    (others : ℕ → ℕ) (store : List Stored) (now timeout mid : ℕ) (dir : Direction) (s : MsgState)
    (c : Context)
    → Keeps others store c
    → Keeps others store (message_update now c mid dir s).1
      × IsKept others store (timeout_check now timeout c.msgs) c.msg_count c.msg_count12
unfolding message_update
message_update-Keeps others store now timeout mid dir s c k = (
  IsKept-alike _ _ (update-IsAlike now mid dir s c.msgs) k,
  IsKept-alike _ _ (timeout_check-IsAlike now timeout c.msgs) k,
)
