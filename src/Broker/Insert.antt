-- ===== src/Broker/Insert.antt =====
-- mqtt3_db_message_insert of src/database.c.
pub mod Room
use kocom.Prelude.{
  text_eq, ℕ, zero, suc, ◌+◌, ◌-◌, ◌≤◌, ◌<◌, ◌⊎◌, ◌≡◌, ◌≢◌, refl, sym, ap, ◌∙◌, Bool, true, false,
  not, ◌&&◌, ◌||◌, Option, none, some, List, [], ◌∷◌, ◌++◌, All, All-append, arith, length,
  length-append, ltb, leb, ◌==◌, if◌then◌else◌, inl, inr, Bool-cases, ==_iff, is_some, pos, succ_ℤ,
}
use mathlib.Core.Option.{some-injective}
use kocom.Proto.{
  MsgState, invalid, Direction, md_in, md_out, direction_eq, state_eq, queued, err_success,
}
use kocom.Broker.{Stored, ClientMsg, Context, Limits, find_stored, change_stored, publish_state}
use kocom.Broker.Admit.{
  InsertMem, listed, sent_before, Admission, admit, not_qos2, full, admission, is_lazy_bridge,
  append_msg, wake_bridge, record_dest, message_insert,
}
use kocom.Broker.Store.{
  uses, uses-append, addrs, addrs-append, total, IsTracked, IsStored, IsExact, find-change,
  change-IsExact, found,
}
use kocom.Broker.Keeps.{qos12, qos12-append, IsKept, Keeps}

-- No copy of a client's id has failed for the message.
abbrev pub IsNamed : Stored → Type 0
IsNamed s = All (λ (id : Option (List ℕ)). is_some id ≡ true) s.dest_ids

listed-some :
    (id : List ℕ) (ids : List (Option (List ℕ)))
    → All (λ (i : Option (List ℕ)). is_some i ≡ true) ids
    → (b : Bool) × (listed id ids ≡ some b)
unfolding listed
listed-some id [] h = (false, refl)
listed-some id (none ∷ ids) h = cc (h.0)
listed-some id (some i ∷ ids) h =
    let (b, e) = listed-some id ids h.1 in (if text_eq i id then true else b, rw e (ground arith))

-- Adding a pointer at the end of the list.
pub add-IsTracked :
    (others : ℕ → ℕ) (store : List Stored) (pointers : List ℕ) (a : ℕ)
    → IsStored store a
    → IsTracked others store pointers
    → IsTracked others
        (change_stored a (λ x. record x { ref_count = succ_ℤ x.ref_count }) store)
        (pointers ++ (a ∷ []))
unfolding uses
add-IsTracked others store pointers a s t = record {
  exact =
      change-IsExact (total others pointers) (total others (pointers ++ (a ∷ []))) a _ store
        (λ b d. away b d) (λ x same h. ap succ_ℤ h ∙ ap pos (at x same)) t.exact;
  stored =
      All-append _ pointers (a ∷ []) (still pointers t.stored)
        (find-change a a _ store (λ x. refl) ∙ s, tt);
}
  where
    away : (b : ℕ) → b ≢ a → total others (pointers ++ (a ∷ [])) b ≡ total others pointers b
    away b d = ground (arith, uses-append b pointers (a ∷ []), d)

    at :
        (x : Stored)
        → x.addr ≡ a
        → suc (total others pointers x.addr) ≡ total others (pointers ++ (a ∷ [])) x.addr
    at x same = ground (arith, uses-append x.addr pointers (a ∷ []), same)

    still :
        (ps : List ℕ)
        → All (IsStored store) ps
        → All
            (IsStored (change_stored a (λ x. record x { ref_count = succ_ℤ x.ref_count }) store))
            ps
    still [] h = tt
    still (p ∷ ps) h = (find-change p a _ store (λ x. refl) ∙ h.0, still ps h.1)

-- A change of what a message says about its receivers.
named-IsTracked :
    (others : ℕ → ℕ) (store : List Stored) (pointers : List ℕ) (a : ℕ) (entry : Option (List ℕ))
    → IsTracked others store pointers
    → IsTracked others
        (change_stored a (λ s. record s { dest_ids = s.dest_ids ++ (entry ∷ []) }) store)
        pointers
named-IsTracked others store pointers a entry t = record {
  exact =
      change-IsExact (total others pointers) (total others pointers) a _ store (λ b d. refl)
        (λ x same h. h) t.exact;
  stored = still pointers t.stored;
}
  where
    still :
        (ps : List ℕ)
        → All (IsStored store) ps
        → All
            (IsStored
              (change_stored a (λ s. record s { dest_ids = s.dest_ids ++ (entry ∷ []) }) store))
            ps
    still [] h = tt
    still (p ∷ ps) h = (find-change p a _ store (λ x. refl) ∙ h.0, still ps h.1)

pub append-Keeps :
    (others : ℕ → ℕ) (store store' : List Stored) (c : Context) (m : ClientMsg)
    → IsTracked others store' (addrs c.msgs ++ (m.store ∷ []))
    → Keeps others store c
    → Keeps others store' (append_msg m c)
unfolding append_msg qos12
append-Keeps others store store' c m t k = record {
  tracked = rw (addrs-append c.msgs (m ∷ [])) t;
  count = omega (arith, k.count, length-append c.msgs (m ∷ []));
  count12 = ground (arith, k.count12, qos12-append c.msgs (m ∷ []));
}

wake-Keeps :
    (others : ℕ → ℕ) (store : List Stored) (c : Context)
    → Keeps others store c
    → Keeps others store (wake_bridge c)
unfolding wake_bridge
wake-Keeps others store c k = ground (arith, k.tracked, k.count, k.count12)

pub record_dest-Keeps :
    (others : ℕ → ℕ) (mem : InsertMem) (lim : Limits) (addr : ℕ) (dir : Direction) (retain : Bool)
    (id : List ℕ) (rc : ℕ) (store : List Stored) (c : Context)
    → Keeps others store c
    → Keeps others
        (record_dest mem lim addr dir retain id rc store c).1
        (record_dest mem lim addr dir retain id rc store c).2
unfolding record_dest
record_dest-Keeps others mem lim addr dir retain id rc store c k =
    let named : (e : Option (List ℕ)) → _ =
      λ e. named-IsTracked others store (addrs c.msgs) addr e k.tracked in
    elim (Bool-cases (not lim.allow_duplicate_messages && direction_eq dir md_out && not retain)) [
      | inr plain ↦ rw plain (wake-Keeps others store c k)
      | inl listing ↦ elim (Bool-cases (not mem.realloc)) [
        | inl out ↦ rw (listing, out) k
        | inr enough ↦ elim (Bool-cases (not mem.strdup)) [
          | inl short ↦
              rw (listing, enough, short)
                (record { tracked = named none; count = k.count; count12 = k.count12 })
          | inr copied ↦
              rw (listing, enough, copied)
                (wake-Keeps others _ c
                  (record { tracked = named (some id); count = k.count; count12 = k.count12 }))
        ]
      ]
    ]

pub find-All {ℓ} :
    (P : Stored → Type ℓ) (a : ℕ) (store : List Stored) (s : Stored)
    → find_stored a store ≡ some s
    → All P store
    → P s
unfolding find_stored
find-All P a [] s e h = cc
find-All P a (x ∷ xs) s e h = elim (Bool-cases (x.addr == a)) [
  | inl hit ↦ let same : x ≡ s = some-injective _ _ (rw hit at e) in rw (← same) h.0
  | inr miss ↦ find-All P a xs s (rw miss at e) h.1
]

pub sent_before-some :
    (lim : Limits) (s : Stored) (dir : Direction) (retain : Bool) (id : List ℕ)
    → IsNamed s
    → (b : Bool) × (sent_before lim s dir retain id ≡ some b)
unfolding sent_before
sent_before-some lim s dir retain id h =
    let (b, e) = listed-some id s.dest_ids h in
    elim (Bool-cases (not lim.allow_duplicate_messages && direction_eq dir md_out && not retain)) [
      | inl asks ↦ (b, rw asks e)
      | inr skips ↦ (false, rw skips refl)
    ]

-- A message that is admitted has a state other than invalid, and there is room for it.
pub admission_room :
    (lim : Limits) (c : Context) (dir : Direction) (qos : ℕ) (s : MsgState) (rc : ℕ)
    → qos ≤ 2
    → admission lim c dir qos ≡ admit s rc
    → (state_eq s invalid ≡ false)
      × ((qos ≡ 0)
          ⊎ (lim.max_inflight ≡ 0)
          ⊎ (lim.max_queued ≡ 0)
          ⊎ (c.msg_count12 + 1 ≤ lim.max_inflight + lim.max_queued))
unfolding admission
admission_room lim c md_out qos s rc q e = ground (arith, e)
admission_room lim c md_in qos s rc q e = ground (arith, e)
