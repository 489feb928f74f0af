-- ===== src/Broker/Insert/Room.antt =====
-- What mqtt3_db_message_insert of src/database.c does to the counts, on every branch.
use kocom.Prelude.{
  ℕ, ◌+◌, ◌≤◌, ◌≡◌, ◌⊎◌, inl, inr, refl, Bool, true, false, not, ◌&&◌, Option, none, some, List,
  All, arith, ◌==◌, Bool-cases, succ_ℤ,
}
use kocom.Proto.{Direction}
use kocom.Broker.{Stored, ClientMsg, Context, Limits, find_stored, change_stored}
use kocom.Broker.Admit.{
  InsertMem, sent_before, Admission, admit, not_qos2, full, admission, is_lazy_bridge, append_msg,
  wake_bridge, record_dest, message_insert,
}
use kocom.Broker.Store.{addrs, IsStored, found}
use kocom.Broker.Keeps.{Keeps}
use kocom.Broker.Insert.{
  IsNamed, add-IsTracked, append-Keeps, record_dest-Keeps, find-All, sent_before-some,
  admission_room,
}

-- The count of messages with QoS 1 or 2 has not grown, or there is no limit, or it is within the
-- limits.
abbrev pub HasRoom : Limits → Context → Context → Type 0
HasRoom lim c c' =
    (c'.msg_count12 ≤ c.msg_count12)
    ⊎ (lim.max_inflight ≡ 0)
    ⊎ (lim.max_queued ≡ 0)
    ⊎ (c'.msg_count12 ≤ lim.max_inflight + lim.max_queued)

abbrev Inserts : (ℕ → ℕ) → Limits → Context → Option (ℕ × List Stored × Context) → Type 0
Inserts others lim c o =
    (rc : ℕ) × (store' : List Stored) × (c' : Context) × (o ≡ some (rc, store', c'))
    × Keeps others store' c'
    × HasRoom lim c c'

-- Nothing has been queued.
left_alone :
    (others : ℕ → ℕ) (lim : Limits) (store : List Stored) (c : Context) (rc : ℕ)
    → Keeps others store c
    → Inserts others lim c (some (rc, store, c))
left_alone others lim store c rc k = (rc, store, c, refl, k, inl (omega arith))

record_dest_count :
    (mem : InsertMem) (lim : Limits) (addr : ℕ) (dir : Direction) (retain : Bool) (id : List ℕ)
    (rc : ℕ) (store : List Stored) (c : Context)
    → (record_dest mem lim addr dir retain id rc store c).2.msg_count12 ≡ c.msg_count12
unfolding record_dest wake_bridge
record_dest_count mem lim addr dir retain id rc store c = ground arith

-- The message that is admitted is queued, and its id recorded.
queued_msg :
    (others : ℕ → ℕ) (mem : InsertMem) (lim : Limits) (store : List Stored) (c : Context)
    (dir : Direction) (retain : Bool) (id : List ℕ) (rc : ℕ) (m : ClientMsg)
    → IsStored store m.store
    → Keeps others store c
    → (m.qos ≡ 0)
      ⊎ (lim.max_inflight ≡ 0)
      ⊎ (lim.max_queued ≡ 0)
      ⊎ (c.msg_count12 + 1 ≤ lim.max_inflight + lim.max_queued)
    → Inserts others lim c (
        some (
          record_dest mem lim m.store dir retain id rc
            (change_stored m.store (λ x. record x { ref_count = succ_ℤ x.ref_count }) store)
            (append_msg m c)))
unfolding append_msg
queued_msg others mem lim store c dir retain id rc m s k room =
    let kept =
      append-Keeps others store _ c m
        (add-IsTracked others store (addrs c.msgs) m.store s k.tracked) k in
    let same =
      record_dest_count mem lim m.store dir retain id rc
        (change_stored m.store (λ x. record x { ref_count = succ_ℤ x.ref_count }) store)
        (append_msg m c) in
    (
      _,
      _,
      _,
      refl,
      record_dest-Keeps others mem lim m.store dir retain id rc _ _ kept,
      ground (arith, room, same),
    )

message_insert-Inserts :
    (others : ℕ → ℕ) (mem : InsertMem) (now : ℕ) (lim : Limits) (store : List Stored) (c : Context)
    (mid : ℕ) (dir : Direction) (qos : ℕ) (retain : Bool) (addr : ℕ)
    → qos ≤ 2
    → IsStored store addr
    → All IsNamed store
    → Keeps others store c
    → Inserts others lim c (message_insert mem now lim store c mid dir qos retain addr)
unfolding message_insert
message_insert-Inserts others mem now lim store c mid dir qos retain addr q s named k =
    by_id c.id refl
  where
    result : Option (ℕ × List Stored × Context)
    result = message_insert mem now lim store c mid dir qos retain addr

    by_admission :
        (id : List ℕ) (stored : Stored)
        → c.id ≡ some id
        → find_stored addr store ≡ some stored
        → sent_before lim stored dir retain id ≡ some false
        → (not c.connected
            && qos == 0
            && not lim.queue_qos0_messages
            && not (is_lazy_bridge c.bridge))
          ≡ false
        → (a : Admission) → admission lim c dir qos ≡ a
        → Inserts others lim c result
    by_admission id stored e f b g not_qos2 h =
        rw (e, f, b, g, h, message_insert) (left_alone others lim store c 1 k)
    by_admission id stored e f b g full h =
        rw (e, f, b, g, h, message_insert)
          (2, store, record c { is_dropping = true }, refl, k, inl (omega arith))
    by_admission id stored e f b g (admit st rc) h =
        let (valid, room) = admission_room lim c dir qos st rc q h in
        elim (Bool-cases (not mem.malloc)) [
          | inl out ↦
              rw (e, f, b, g, h, valid, out, message_insert) (left_alone others lim store c 1 k)
          | inr enough ↦
              rw (e, f, b, g, h, valid, enough, message_insert)
                (queued_msg others mem lim store c dir retain id rc _ s k room)
        ]

    by_id : (o : Option (List ℕ)) → c.id ≡ o → Inserts others lim c result
    by_id none e = rw (e, message_insert) (left_alone others lim store c 0 k)
    by_id (some id) e =
        let (stored, f) = found addr store s in
        let (b, g) =
          sent_before-some lim stored dir retain id (find-All IsNamed addr store stored f named) in
        by_sent b stored f g
      where
        by_sent :
            (b : Bool) (stored : Stored)
            → find_stored addr store ≡ some stored
            → sent_before lim stored dir retain id ≡ some b
            → Inserts others lim c result
        by_sent true stored f g = rw (e, f, g, message_insert) (left_alone others lim store c 0 k)
        by_sent false stored f g =
            elim (Bool-cases (
              not c.connected
              && qos == 0
              && not lim.queue_qos0_messages
              && not (is_lazy_bridge c.bridge))) [
                | inl away ↦ rw (e, f, g, away, message_insert) (left_alone others lim store c 2 k)
                | inr asks ↦ by_admission id stored e f g asks (admission lim c dir qos) refl
              ]

-- Inserting a message of the store with QoS 0, 1 or 2 for a client, where the counts of references
-- and of messages are exact and no copy of a client's id has failed for a stored message, ends
-- without a fault or a failed assertion, on every branch and whatever allocation fails now. The
-- counts stay exact, and the number of messages with QoS 1 or 2 has not grown, or is within the
-- two limits together, or one of them is 0.
pub message_insert-Keeps :
    (others : ℕ → ℕ) (mem : InsertMem) (now : ℕ) (lim : Limits) (store : List Stored) (c : Context)
    (mid : ℕ) (dir : Direction) (qos : ℕ) (retain : Bool) (addr : ℕ)
    → qos ≤ 2
    → IsStored store addr
    → All IsNamed store
    → Keeps others store c
    → (rc : ℕ) × (store' : List Stored) × (c' : Context) × (message_insert mem now lim store c mid
          dir qos retain addr
        ≡ some (rc, store', c'))
      × Keeps others store' c'
      × HasRoom lim c c'
message_insert-Keeps = message_insert-Inserts
