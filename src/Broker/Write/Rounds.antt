-- ===== src/Broker/Write/Rounds.antt =====
-- How many rounds the loop of mqtt3_db_message_write takes, and what a removal does to the messages
-- that are left.
use kocom.Prelude.{
  ℕ, ◌+◌, ◌*◌, ◌≤◌, ◌≡◌, ◌⊎◌, inl, inr, refl, false, not, ◌&&◌, Option, none, some, List, [], ◌∷◌,
  ◌++◌, All, arith, length, drop, ltb, ◌==◌, if◌then◌else◌, Bool-cases,
}
use kocom.Proto.{queued, state_eq, md_in, direction_eq}
use kocom.Broker.{Stored, ClientMsg, remove_between, promote, promoted, store_deref}
use kocom.Broker.Store.{IsStored, addrs}
use kocom.Broker.Keeps.{IsAlike, IsAlike-refl, IsAlike-cons}

-- An incoming message has QoS 2.
abbrev pub IsStartable : ClientMsg → Type 0
IsStartable m = (direction_eq m.direction md_in && not (m.qos == 2)) ≡ false

-- How many rounds the messages take at most.
pub rounds : List ClientMsg → ℕ
rounds [] = 0
rounds (m ∷ ms) = (if state_eq m.state queued then 2 else 1) + rounds ms

pub rounds-le : (ms : List ClientMsg) → rounds ms ≤ 2 * length ms
unfolding rounds
rounds-le [] = omega arith
rounds-le (m ∷ ms) = ground (arith, rounds-le ms)

pub rounds-promote : (max : ℕ) (ms : List ClientMsg) → rounds (promote max ms) ≤ rounds ms
unfolding rounds promote promoted
rounds-promote max [] = omega arith
rounds-promote max (m ∷ ms) = ground (arith, rounds-promote max ms)

promote-IsStartable :
    (max : ℕ) (ms : List ClientMsg) → All IsStartable ms → All IsStartable (promote max ms)
unfolding promote promoted
promote-IsStartable max [] h = tt
promote-IsStartable max (m ∷ ms) h = elim (Bool-cases (state_eq m.state queued && ltb 0 max)) [
  | inl waiting ↦ rw waiting (h.0, promote-IsStartable max ms h.1)
  | inr stops ↦ rw stops h
]

-- What promotion does to the messages behind the first ones.
drop-promote :
    (max : ℕ) (xs ys : List ClientMsg)
    → (drop (length xs) (promote max (xs ++ ys)) ≡ ys)
      ⊎ (drop (length xs) (promote max (xs ++ ys)) ≡ promote max ys)
unfolding promote
drop-promote max [] ys = inr refl
drop-promote max (x ∷ xs) ys = elim (Bool-cases (state_eq x.state queued && ltb 0 max)) [
  | inl waiting ↦ rw waiting (drop-promote max xs ys)
  | inr stops ↦ rw stops (inl (drop_first xs))
]
  where
    drop_first : (l : List ClientMsg) → drop (length l) (l ++ ys) ≡ ys
    drop_first [] = refl
    drop_first (z ∷ l) = drop_first l

pub behind_promoted :
    (max : ℕ) (xs ys : List ClientMsg)
    → All IsStartable ys
    → (rounds (drop (length xs) (promote max (xs ++ ys))) ≤ rounds ys)
      × All IsStartable (drop (length xs) (promote max (xs ++ ys)))
behind_promoted max xs ys h = elim (drop-promote max xs ys) [
  | inl same ↦ rw same (omega arith, h)
  | inr all ↦ rw all (rounds-promote max ys, promote-IsStartable max ys h)
]

pub removed_all :
    (max : ℕ) (store store' : List Stored) (before : List ClientMsg) (m : ClientMsg)
    (ms all : List ClientMsg)
    → remove_between max store before m ms ≡ some (store', all)
    → all ≡ promote max (before ++ ms)
unfolding remove_between
removed_all max store store' before m ms all e = by_result (store_deref m.store store) refl
  where
    by_result :
        (o : Option (List Stored))
        → store_deref m.store store ≡ o
        → all ≡ promote max (before ++ ms)
    by_result none q = cc (rw (q, remove_between) at e)
    by_result (some s) q = cc (rw (q, remove_between) at e)

-- Changing the state of one message in the middle.
pub changed_middle :
    (xs : List ClientMsg) (m m' : ClientMsg) (ys : List ClientMsg)
    → m'.store ≡ m.store
    → m'.qos ≡ m.qos
    → IsAlike (xs ++ (m ∷ ys)) (xs ++ (m' ∷ ys))
changed_middle [] m m' ys s q = IsAlike-cons m m' ys ys s q (IsAlike-refl ys)
changed_middle (x ∷ xs) m m' ys s q = IsAlike-cons x x _ _ refl refl (changed_middle xs m m' ys s q)

pub stored_middle :
    (store : List Stored) (xs : List ClientMsg) (m : ClientMsg) (ys : List ClientMsg)
    → All (IsStored store) (addrs (xs ++ (m ∷ ys)))
    → IsStored store m.store
stored_middle store [] m ys h = h.0
stored_middle store (x ∷ xs) m ys h = stored_middle store xs m ys h.1

pub rounds-cons :
    (m : ClientMsg) (ms : List ClientMsg)
    → rounds (m ∷ ms) ≡ (if state_eq m.state queued then 2 else 1) + rounds ms
unfolding rounds
rounds-cons m ms = refl
