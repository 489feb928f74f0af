-- ===== src/Broker/Keeps.antt =====
-- The operations on a client's message list keep its counts and the counts of references.
use kocom.Prelude.{
  ℕ, suc, ◌+◌, ◌-◌, ◌≡◌, refl, sym, ap, ◌∙◌, ◌&&◌, some, List, [], ◌∷◌, ◌++◌, All, All-append,
  All-split, arith, length, length-append, ltb, ◌==◌, if◌then◌else◌, inl, inr, Bool-cases, pos,
}
use kocom.Proto.{MsgState, Direction, direction_eq, state_eq, queued}
use kocom.Broker.{Stored, ClientMsg, Context, promote, promoted, remove_between}
use kocom.Broker.Change.{update_msgs, timeout_check}
use kocom.Broker.Store.{
  uses, uses-append, addrs, addrs-append, total, IsTracked, IsStored, IsExact,
  store_deref-IsTracked,
}

-- How many messages have QoS 1 or 2.
unfoldable pub qos12 : List ClientMsg → ℕ
qos12 [] = 0
qos12 (m ∷ ms) = (if ltb 0 m.qos then 1 else 0) + qos12 ms

pub qos12-append : (xs ys : List ClientMsg) → qos12 (xs ++ ys) ≡ qos12 xs + qos12 ys
unfolding qos12
qos12-append [] ys = omega arith
qos12-append (x ∷ xs) ys = omega (arith, qos12-append xs ys)

-- The store is exact for the list, and the two counts are.
pub record IsKept (others : ℕ → ℕ) (store : List Stored) (ms : List ClientMsg) (n n12 : ℕ)
    : Type 0 where
  pub tracked : IsTracked others store (addrs ms)
  pub count : n ≡ length ms
  pub count12 : n12 ≡ qos12 ms

-- The same with the list and the counts of a client.
abbrev pub Keeps : (ℕ → ℕ) → List Stored → Context → Type 0
Keeps others store c = IsKept others store c.msgs c.msg_count c.msg_count12

-- Two lists that differ in what the counts do not read.
pub record IsAlike (xs ys : List ClientMsg) : Type 0 where
  pub pointers : addrs ys ≡ addrs xs
  pub len : length ys ≡ length xs
  pub qos : qos12 ys ≡ qos12 xs

pub IsAlike-refl : (xs : List ClientMsg) → IsAlike xs xs
IsAlike-refl xs = record { pointers = refl; len = refl; qos = refl }

pub IsAlike-cons :
    (x y : ClientMsg) (xs ys : List ClientMsg)
    → y.store ≡ x.store
    → y.qos ≡ x.qos
    → IsAlike xs ys
    → IsAlike (x ∷ xs) (y ∷ ys)
unfolding qos12
IsAlike-cons x y xs ys s q a = record {
  pointers = rw (s, a.pointers) refl;
  len = ap suc a.len;
  qos = rw (q, a.qos) refl;
}

pub IsKept-alike :
    {others : ℕ → ℕ} {store : List Stored} {n n12 : ℕ} (xs ys : List ClientMsg)
    → IsAlike xs ys
    → IsKept others store xs n n12
    → IsKept others store ys n n12
IsKept-alike xs ys a k = record {
  tracked = rw a.pointers k.tracked;
  count = k.count ∙ sym a.len;
  count12 = k.count12 ∙ sym a.qos;
}

promote-IsAlike : (max : ℕ) (ms : List ClientMsg) → IsAlike ms (promote max ms)
unfolding promote promoted
promote-IsAlike max [] = IsAlike-refl []
promote-IsAlike max (m ∷ ms) = elim (Bool-cases (state_eq m.state queued && ltb 0 max)) [
  | inl waiting ↦ rw waiting (IsAlike-cons m _ ms _ refl refl (promote-IsAlike max ms))
  | inr stops ↦ rw stops (IsAlike-refl (m ∷ ms))
]

pub timeout_check-IsAlike :
    (now timeout : ℕ) (ms : List ClientMsg) → IsAlike ms (timeout_check now timeout ms)
unfolding timeout_check
timeout_check-IsAlike now timeout [] = IsAlike-refl []
timeout_check-IsAlike now timeout (m ∷ ms) =
    IsAlike-cons m _ ms _ (ground arith) (ground arith) (timeout_check-IsAlike now timeout ms)

pub update-IsAlike :
    (now mid : ℕ) (dir : Direction) (s : MsgState) (ms : List ClientMsg)
    → IsAlike ms (update_msgs now mid dir s ms).1
unfolding update_msgs
update-IsAlike now mid dir s [] = IsAlike-refl []
update-IsAlike now mid dir s (m ∷ ms) =
    elim (Bool-cases (m.mid == mid && direction_eq m.direction dir)) [
      | inl hit ↦ rw hit (IsAlike-cons m _ ms ms refl refl (IsAlike-refl ms))
      | inr miss ↦ rw miss (IsAlike-cons m m ms _ refl refl (update-IsAlike now mid dir s ms))
    ]

-- The message that is to be removed comes first.
to_front :
    (others : ℕ → ℕ) (store : List Stored) (xs : List ℕ) (a : ℕ) (ys : List ℕ)
    → IsTracked others store (xs ++ (a ∷ ys))
    → IsTracked others store (a ∷ (xs ++ ys))
unfolding uses
to_front others store xs a ys t =
    let (sx, sy) = All-split (IsStored store) xs (a ∷ ys) t.stored in
    record {
      exact = same store t.exact;
      stored = (sy.0, All-append (IsStored store) xs ys sx sy.1);
    }
  where
    same :
        (ss : List Stored)
        → All (IsExact (total others (xs ++ (a ∷ ys)))) ss
        → All (IsExact (total others (a ∷ (xs ++ ys)))) ss
    same [] h = tt
    same (s ∷ ss) h =
        let e : total others (xs ++ (a ∷ ys)) s.addr ≡ total others (a ∷ (xs ++ ys)) s.addr =
          omega (arith, uses-append s.addr xs (a ∷ ys), uses-append s.addr xs ys) in
        (h.0 ∙ ap pos e, same ss h.1)

-- _message_remove frees the message, and keeps the rest.
pub remove_between-IsKept :
    (others : ℕ → ℕ) (max : ℕ) (store : List Stored) (before : List ClientMsg) (m : ClientMsg)
    (behind : List ClientMsg) (n n12 : ℕ)
    → IsKept others store (before ++ (m ∷ behind)) n n12
    → (store' : List Stored) × (all : List ClientMsg) × (remove_between max store before m behind
        ≡ some (store', all))
      × IsKept others store' all (n - 1) (if ltb 0 m.qos then n12 - 1 else n12)
      × (length all ≡ length before + length behind)
unfolding remove_between qos12
remove_between-IsKept others max store before m behind n n12 k =
    let front =
      to_front others store (addrs before) m.store (addrs behind)
        (rw (← addrs-append before (m ∷ behind)) k.tracked) in
    let (store', e, t, freed) =
      store_deref-IsTracked others store m.store (addrs before ++ addrs behind) front in
    let rest : IsKept others store' (before ++ behind) (n - 1)
        (if ltb 0 m.qos then n12 - 1 else n12) =
      record {
        tracked = rw (addrs-append before behind) t;
        count =
            omega (arith, k.count, length-append before (m ∷ behind), length-append before behind);
        count12 =
            ground (arith, k.count12, qos12-append before (m ∷ behind), qos12-append before behind);
      } in
    let alike = promote-IsAlike max (before ++ behind) in
    (
      store',
      promote max (before ++ behind),
      rw (e, remove_between) refl,
      IsKept-alike _ _ alike rest,
      alike.len ∙ length-append before behind,
    )
