-- ===== src/Broker/Write/Ends.antt =====
-- mqtt3_db_message_write ends and keeps the counts.
use kocom.Prelude.{
  ℕ, zero, suc, ◌+◌, ◌*◌, ◌≤◌, ◌≡◌, inl, inr, refl, true, false, not, ◌&&◌, ◌||◌, Option, none,
  some, List, [], ◌∷◌, ◌++◌, All, arith, length, take, drop, take_append_drop, append_assoc,
  append-nil, ◌==◌, if◌then◌else◌, Bool-cases, is_some,
}
use kocom.Proto.{
  queued, send_pubrec, publish_qos0, state_eq, md_in, direction_eq, err_success, err_inval,
}
use kocom.Broker.{Stored, ClientMsg, Context, Limits, find_stored, remove_between, count_removed}
use kocom.Broker.Store.{found}
use kocom.Broker.Keeps.{IsKept, Keeps, IsKept-alike, remove_between-IsKept}
use kocom.Broker.Write.{
  Sent, Wire, wire_send, to_send, after_send, Written, may_start, write_loop, message_write,
  is_connected,
}
use kocom.Broker.Write.Rounds.{
  IsStartable, rounds, rounds-cons, rounds-le, behind_promoted, removed_all, changed_middle,
  stored_middle,
}

after_send-same :
    (now : ℕ) (m : ClientMsg)
    → ((after_send now m).store ≡ m.store) × ((after_send now m).qos ≡ m.qos)
unfolding after_send
after_send-same now m = ground arith

-- The loop has ended with a code, without a fault and with the counts right.
abbrev Finishes : (ℕ → ℕ) → Written → Type 0
Finishes others o =
    (rc : ℕ) × (store' : List Stored) × (c' : Context) × (w' : Wire) × (o
      ≡ some (rc, store', c', w'))
    × Keeps others store' c'

-- How the rest of the loop is reached from one message.
abbrev Continues : (ℕ → ℕ) → ℕ → ℕ → ℕ → Type 0
Continues others fuel now max =
    (before ms : List ClientMsg) (count : ℕ) (store : List Stored) (c : Context) (w : Wire)
    → rounds ms ≤ fuel
    → All IsStartable ms
    → IsKept others store (before ++ ms) c.msg_count c.msg_count12
    → Finishes others (write_loop fuel now max before ms count store c w)

module _ (others : ℕ → ℕ) (fuel now max : ℕ) (before : List ClientMsg) (m : ClientMsg)
    (ms : List ClientMsg) (store : List Stored) (c : Context) (w : Wire) (count : ℕ)
    (rest : Continues others fuel now max) (startable : All IsStartable (m ∷ ms))
    (k : IsKept others store (before ++ (m ∷ ms)) c.msg_count c.msg_count12) where
  passes :
      (m' : ClientMsg) (w' : Wire)
      → m'.store ≡ m.store
      → m'.qos ≡ m.qos
      → rounds ms ≤ fuel
      → Finishes others (write_loop fuel now max (before ++ (m' ∷ [])) ms count store c w')
  passes m' w' s q f = rest (before ++ (m' ∷ [])) ms count store c w' f startable.1 (
      rw (append_assoc before (m' ∷ []) ms)
        (IsKept-alike _ _ (changed_middle before m m' ms s q) k))

  starts :
      state_eq m.state queued ≡ true
      → direction_eq m.direction md_in ≡ true
      → rounds (m ∷ ms) ≤ suc fuel
      → Finishes others (
          write_loop fuel now max before
            ((if m.qos == 2 then record m { state = send_pubrec } else m) ∷ ms)
            count
            store
            c
            w)
  starts waiting incoming f =
      let two : (m.qos == 2) ≡ true = let h = startable.0 in ground (arith, incoming, h) in
      let m' : ClientMsg = record m { state = send_pubrec } in
      rw two (
        rest before (m' ∷ ms) count store c w
          (ground (arith, rounds-cons m ms, rounds-cons m' ms, waiting, f)) startable
          (IsKept-alike _ _ (changed_middle before m m' ms refl refl) k))

  removes :
      (w' : Wire)
      → rounds ms ≤ fuel
      → Finishes others (elim (remove_between max store before m ms) [
        | none ↦ none
        | some (store', all) ↦
            write_loop fuel now max
              (take (length before) all)
              (drop (length before) all)
              count
              store'
              (count_removed m c)
              w'
      ])
  unfolding count_removed
  removes w' f =
      let (store', all, e, kept, len) =
        remove_between-IsKept others max store before m ms c.msg_count c.msg_count12 k in
      let (fewer, ok) = behind_promoted max before ms startable.1 in
      let same = removed_all max store store' before m ms all e in
      rw e (
        rest (take (length before) all) (drop (length before) all) count store' (count_removed m c)
          w' (rw same (omega (arith, fewer, f))) (rw same ok)
          (rw (take_append_drop (length before) all) kept))

-- One round, by the cases of the loop.
round :
    (others : ℕ → ℕ) (fuel now max : ℕ) (before : List ClientMsg) (m : ClientMsg)
    (ms : List ClientMsg) (count : ℕ) (store : List Stored) (c : Context) (w : Wire)
    → Continues others fuel now max
    → rounds (m ∷ ms) ≤ suc fuel
    → All IsStartable (m ∷ ms)
    → IsKept others store (before ++ (m ∷ ms)) c.msg_count c.msg_count12
    → Finishes others (write_loop (suc fuel) now max before (m ∷ ms) count store c w)
unfolding write_loop
round others fuel now max before m ms count store c w rest f ok k =
    let (s, found_it) = found m.store store (stored_middle store before m ms k.tracked.stored) in
    elim (Bool-cases (state_eq m.state queued)) [
      | inl waiting ↦ elim (Bool-cases (may_start max counted m)) [
        | inl room ↦
            rw (waiting, room, write_loop)
              (starts others fuel now max before m ms store c w counted rest ok k waiting
                (ground (arith, room)) f)
        | inr full ↦
            rw (waiting, full, write_loop)
              (passes others fuel now max before m ms store c w counted rest ok k m w refl refl
                shorter)
      ]
      | inr active ↦ sending s found_it active (to_send m s) refl
    ]
  where
    counted : ℕ
    counted = if direction_eq m.direction md_in then count + 1 else count

    result : Written
    result = write_loop (suc fuel) now max before (m ∷ ms) count store c w

    shorter : rounds ms ≤ fuel
    shorter = ground (arith, rounds-cons m ms, f)

    sending :
        (s : Stored)
        → find_stored m.store store ≡ some s
        → state_eq m.state queued ≡ false
        → (o : Option Sent) → to_send m s ≡ o
        → Finishes others result
    sending s e active none q =
        rw (active, e, q, write_loop)
          (passes others fuel now max before m ms store c w counted rest ok k m w refl refl shorter)
    sending s e active (some p) q = elim (Bool-cases ((wire_send p w).0 == 0)) [
      | inr bad ↦
          rw (active, e, q, bad, write_loop)
            (
              (wire_send p w).0,
              store,
              record c { msgs = before ++ (m ∷ ms) },
              (wire_send p w).1,
              refl,
              k,
            )
      | inl good ↦ elim (Bool-cases (state_eq m.state publish_qos0)) [
        | inl once ↦
            rw (active, e, q, good, once, write_loop)
              (removes others fuel now max before m ms store c w counted rest ok k (wire_send p w).1
                shorter)
        | inr again ↦
            let (stay, same) = after_send-same now m in
            rw (active, e, q, good, again, write_loop)
              (passes others fuel now max before m ms store c w counted rest ok k (after_send now m)
                (wire_send p w).1 stay same shorter)
      ]
    ]

write_loop-Finishes : (others : ℕ → ℕ) (fuel now max : ℕ) → Continues others fuel now max
write_loop-Finishes others fuel now max before [] count store c w f ok k =
    unfold write_loop in
    (0, store, record c { msgs = before }, w, refl, rw (append-nil before) at k)
write_loop-Finishes others zero now max before (m ∷ ms) count store c w f ok k =
    absurd (ground (arith, rounds-cons m ms, f))
write_loop-Finishes others (suc fuel) now max before (m ∷ ms) count store c w f ok k =
    round others fuel now max before m ms count store c w (write_loop-Finishes others fuel now max)
      f ok k

-- Where the counts of references and of messages are exact and every incoming message of the
-- client has QoS 2, writing its messages ends, within the fuel and without a fault, whatever the
-- send functions return; the counts stay exact, and no pointer that is left dangles.
pub message_write-Keeps :
    (others : ℕ → ℕ) (now : ℕ) (lim : Limits) (store : List Stored) (c : Context) (w : Wire)
    → All IsStartable c.msgs
    → Keeps others store c
    → (rc : ℕ) × (store' : List Stored) × (c' : Context) × (w' : Wire) × (message_write now lim
          store c w
        ≡ some (rc, store', c', w'))
      × Keeps others store' c'
unfolding message_write
message_write-Keeps others now lim store c w ok k =
    elim (Bool-cases (not c.connected || (is_connected c.state && not (is_some c.id)))) [
      | inl gone ↦ rw gone (err_inval, store, c, w, refl, k)
      | inr there ↦ elim (Bool-cases (not (is_connected c.state))) [
        | inl early ↦ rw (there, early) (err_success, store, c, w, refl, k)
        | inr up ↦
            rw (there, up)
              (write_loop-Finishes others (2 * length c.msgs) now lim.max_inflight [] c.msgs 0 store
                c w (rounds-le c.msgs) ok k)
      ]
    ]
