-- ===== src/Broker/Store.antt =====
-- The reference counts of the broker's message store.
use kocom.Prelude.{
  ℕ, zero, suc, ◌+◌, ◌≡◌, ◌≢◌, refl, sym, ap, ◌∙◌, true, Option, none, some, List, [], ◌∷◌, ◌++◌,
  pos, pred_ℤ, All, arith, ◌==◌, if◌then◌else◌, inl, inr, Bool-cases, ==_iff, is_some, false, not,
  ◌&&◌, ◌||◌, ltb,
}
use mathlib.Core.Option.{some-injective}
use kocom.Broker.{Stored, ClientMsg, find_stored, change_stored, remove_stored, store_deref}

-- How many of the pointers have the address.
unfoldable pub uses : ℕ → List ℕ → ℕ
uses addr [] = 0
uses addr (x ∷ xs) = (if x == addr then 1 else 0) + uses addr xs

pub uses-append : (addr : ℕ) (xs ys : List ℕ) → uses addr (xs ++ ys) ≡ uses addr xs + uses addr ys
unfolding uses
uses-append addr [] ys = omega arith
uses-append addr (x ∷ xs) ys = omega (arith, uses-append addr xs ys)

-- The pointers of a message list.
abbrev pub addrs : List ClientMsg → List ℕ
addrs [] = []
addrs (m ∷ ms) = m.store ∷ addrs ms

pub addrs-append : (xs ys : List ClientMsg) → addrs (xs ++ ys) ≡ addrs xs ++ addrs ys
addrs-append [] ys = refl
addrs-append (x ∷ xs) ys = ap (λ l. x.store ∷ l) (addrs-append xs ys)

-- Each count of references is the number of them: those of the list, and `others` from elsewhere.
-- No pointer of the list dangles.
abbrev pub IsExact : (ℕ → ℕ) → Stored → Type 0
IsExact n s = s.ref_count ≡ pos (n s.addr)

abbrev pub IsStored : List Stored → ℕ → Type 0
IsStored store a = is_some (find_stored a store) ≡ true

abbrev pub total : (ℕ → ℕ) → List ℕ → ℕ → ℕ
total others pointers a = others a + uses a pointers

pub record IsTracked (others : ℕ → ℕ) (store : List Stored) (pointers : List ℕ) : Type 0 where
  pub exact : All (IsExact (total others pointers)) store
  pub stored : All (IsStored store) pointers

pub find-change :
    (a b : ℕ) (f : Stored → Stored) (store : List Stored)
    → ((s : Stored) → (f s).addr ≡ s.addr)
    → is_some (find_stored a (change_stored b f store)) ≡ is_some (find_stored a store)
unfolding find_stored change_stored
find-change a b f [] k = refl
find-change a b f (s ∷ ss) k =
    let ih = find-change a b f ss k in let same = k s in ground (arith, ih, same)

pub find-remove :
    (a b : ℕ) (store : List Stored)
    → a ≢ b
    → is_some (find_stored a (remove_stored b store)) ≡ is_some (find_stored a store)
unfolding find_stored remove_stored
find-remove a b [] k = refl
find-remove a b (s ∷ ss) k = let ih = find-remove a b ss k in ground (arith, ih, k)

find-removed :
    (a : ℕ) (store : List Stored) → is_some (find_stored a (remove_stored a store)) ≡ false
unfolding find_stored remove_stored
find-removed a [] = refl
find-removed a (s ∷ ss) = ground (arith, find-removed a ss)

-- A change at one address that brings its count in line with new numbers of references.
pub change-IsExact :
    (n n' : ℕ → ℕ) (b : ℕ) (f : Stored → Stored) (store : List Stored)
    → ((a : ℕ) → a ≢ b → n' a ≡ n a)
    → ((s : Stored) → s.addr ≡ b → IsExact n s → IsExact n' (f s))
    → All (IsExact n) store
    → All (IsExact n') (change_stored b f store)
unfolding change_stored
change-IsExact n n' b f [] away here h = tt
change-IsExact n n' b f (s ∷ ss) away here h =
    let rest = change-IsExact n n' b f ss away here h.1 in
    elim (Bool-cases (s.addr == b)) [
      | inl hit ↦ rw hit (here s ((==_iff s.addr b).0 hit) h.0, rest)
      | inr miss ↦ rw miss (h.0 ∙ ap pos (sym (away s.addr (ground (arith, miss)))), rest)
    ]

pub remove-IsExact :
    (n n' : ℕ → ℕ) (b : ℕ) (store : List Stored)
    → ((a : ℕ) → a ≢ b → n' a ≡ n a)
    → All (IsExact n) store
    → All (IsExact n') (remove_stored b store)
unfolding remove_stored
remove-IsExact n n' b [] away h = tt
remove-IsExact n n' b (s ∷ ss) away h =
    let rest = remove-IsExact n n' b ss away h.1 in
    elim (Bool-cases (s.addr == b)) [
      | inl hit ↦ rw hit rest
      | inr miss ↦ rw miss (h.0 ∙ ap pos (sym (away s.addr (ground (arith, miss)))), rest)
    ]

-- What is found has the address, and the count that the store's invariant says.
pub find-exact :
    (n : ℕ → ℕ) (a : ℕ) (store : List Stored) (s : Stored)
    → find_stored a store ≡ some s
    → All (IsExact n) store
    → s.ref_count ≡ pos (n a)
unfolding find_stored
find-exact n a [] s e h = cc
find-exact n a (x ∷ xs) s e h = elim (Bool-cases (x.addr == a)) [
  | inl hit ↦
      let same : x ≡ s = some-injective _ _ (rw hit at e) in
      rw (← same) (h.0 ∙ ap (λ b. pos (n b)) ((==_iff x.addr a).0 hit))
  | inr miss ↦ find-exact n a xs s (rw miss at e) h.1
]

pub found :
    (a : ℕ) (store : List Stored) → IsStored store a → (s : Stored) × (find_stored a store ≡ some s)
found a store h = by_result (find_stored a store) refl
  where
    by_result :
        (o : Option Stored)
        → find_stored a store ≡ o
        → (s : Stored) × (find_stored a store ≡ some s)
    by_result none e = cc (rw e at h)
    by_result (some s) e = (s, e)

still_stored :
    (a : ℕ) (store : List Stored) (pointers : List ℕ)
    → uses a pointers ≡ 0
    → All (IsStored store) pointers
    → All (IsStored (remove_stored a store)) pointers
unfolding uses
still_stored a store [] z h = tt
still_stored a store (x ∷ xs) z h =
    let differs : x ≢ a = λ e. ground (arith, z, e) in
    let fewer : uses a xs ≡ 0 = ground (arith, z) in
    (find-remove x a store differs ∙ h.0, still_stored a store xs fewer h.1)

kept_stored :
    (a : ℕ) (f : Stored → Stored) (store : List Stored) (pointers : List ℕ)
    → ((s : Stored) → (f s).addr ≡ s.addr)
    → All (IsStored store) pointers
    → All (IsStored (change_stored a f store)) pointers
kept_stored a f store [] k h = tt
kept_stored a f store (x ∷ xs) k h =
    (find-change x a f store k ∙ h.0, kept_stored a f store xs k h.1)

away :
    (others : ℕ → ℕ) (b : ℕ) (pointers : List ℕ) (a : ℕ)
    → a ≢ b
    → total others pointers a ≡ total others (b ∷ pointers) a
unfolding uses
away others b pointers a d = ground (arith, d)

here :
    (others : ℕ → ℕ) (b : ℕ) (pointers : List ℕ)
    → total others (b ∷ pointers) b ≡ suc (total others pointers b)
unfolding uses
here others b pointers = ground arith

-- What the store has after a pointer to `a` is given up, where `left` pointers to it are left.
abbrev pub Freed : ℕ → ℕ → List Stored → List Stored → Type 0
Freed a left store store' =
    (b : ℕ)
    → is_some (find_stored b store')
      ≡ (is_some (find_stored b store) && (not (b == a) || ltb 0 left))

removed-Freed : (a : ℕ) (store : List Stored) → Freed a 0 store (remove_stored a store)
removed-Freed a store b = elim (Bool-cases (b == a)) [
  | inl hit ↦
      let e : b ≡ a = (==_iff b a).0 hit in ground (arith, hit, rw (← e) at (find-removed a store))
  | inr miss ↦ let d : b ≢ a = ground (arith, miss) in ground (arith, miss, find-remove b a store d)
]

stepped-Freed :
    (a k : ℕ) (f : Stored → Stored) (store : List Stored)
    → ((s : Stored) → (f s).addr ≡ s.addr)
    → Freed a (suc k) store (change_stored a f store)
stepped-Freed a k f store keeps b = ground (arith, find-change b a f store keeps)

-- Where the counts of references are exact and no pointer dangles, giving up a pointer succeeds
-- and leaves it so for the other pointers. The message that it points to is freed exactly if it was
-- the last one; every other message stays in the store.
pub store_deref-IsTracked :
    (others : ℕ → ℕ) (store : List Stored) (a : ℕ) (pointers : List ℕ)
    → IsTracked others store (a ∷ pointers)
    → (store' : List Stored) × (store_deref a store ≡ some store')
      × IsTracked others store' pointers
      × Freed a (total others pointers a) store store'
unfolding store_deref
store_deref-IsTracked others store a pointers t =
    let (s, e) = found a store t.stored.0 in
    let n =
      find-exact (total others (a ∷ pointers)) a store s e t.exact
      ∙ ap pos (here others a pointers) in
    by_count (total others pointers a) refl s e n
  where
    freed : List Stored
    freed = remove_stored a store

    stepped : List Stored
    stepped = change_stored a (λ x. record x { ref_count = pred_ℤ x.ref_count }) store

    by_count :
        (k : ℕ)
        → total others pointers a ≡ k
        → (s : Stored) → find_stored a store ≡ some s
        → s.ref_count ≡ pos (suc (total others pointers a))
        → (store' : List Stored) × (store_deref a store ≡ some store')
          × IsTracked others store' pointers
          × Freed a (total others pointers a) store store'
    by_count zero z s e n = (
      freed,
      rw (e, n, z, store_deref) refl,
      record {
        exact = remove-IsExact _ _ a store (away others a pointers) t.exact;
        stored = still_stored a store pointers (omega arith) t.stored.1;
      },
      rw z (removed-Freed a store),
    )
    by_count (suc k) z s e n = (
      stepped,
      rw (e, n, z, store_deref) refl,
      record {
        exact =
            change-IsExact _ _ a _ store (away others a pointers)
              (λ x same h.
                ap pred_ℤ
                  (h ∙ ap pos (ap (total others (a ∷ pointers)) same ∙ here others a pointers))
                ∙ ap pos (ap (total others pointers) (sym same)))
              t.exact;
        stored = kept_stored a _ store pointers (λ x. refl) t.stored.1;
      },
      rw z (stepped-Freed a k _ store (λ x. refl)),
    )
