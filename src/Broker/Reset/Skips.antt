-- ===== src/Broker/Reset/Skips.antt =====
-- What mqtt3_db_message_reconnect_reset of src/database.c passes over.
use kocom.Prelude.{
  ℕ, suc, ◌+◌, ◌≤◌, ◌≡◌, refl, sym, ap, ◌∙◌, false, Option, some, List, [], ◌∷◌, All, arith, ltb,
  ◌==◌, ◌&&◌, if◌then◌else◌, inl, inr, Bool-cases, length, drop,
}
use mathlib.Core.Path.{subst}
use kocom.Proto.{md_in, md_out, direction_eq, state_eq, queued}
use kocom.Broker.{Stored, ClientMsg, Context, Limits, remove_between, promote, promoted}
use kocom.Broker.Store.{addrs, IsTracked}
use kocom.Broker.Keeps.{qos12, remove_between-IsKept, IsKept-alike}
use kocom.Broker.Write.Rounds.{IsStartable, removed_all, behind_promoted}
use kocom.Broker.Reset.{
  reset_loop, start_first, message_reconnect_reset, reset_loop-Counts, start_first-IsAlike,
}

-- One message with QoS 1 or 2.
abbrev pub one12 : ClientMsg → ℕ
one12 m = if ltb 0 m.qos then 1 else 0

-- A list that is not empty.
nonempty :
    (n : ℕ) (all : List ClientMsg)
    → length all ≡ suc n
    → (y : ClientMsg) × (ys : List ClientMsg) × (all ≡ y ∷ ys)
nonempty n [] e = absurd (omega (arith, e))
nonempty n (y ∷ ys) e = (y, ys, refl)

abbrev first12 : List ClientMsg → ℕ
first12 [] = 0
first12 (m ∷ ms) = one12 m

promote-first12 :
    (max : ℕ) (x : ClientMsg) (xs : List ClientMsg) → first12 (promote max (x ∷ xs)) ≡ one12 x
unfolding promote promoted
promote-first12 max x xs = elim (Bool-cases (state_eq x.state queued && ltb 0 max)) [
  | inl waiting ↦ rw waiting refl
  | inr stops ↦ rw stops refl
]

-- The first round removes `m`, and goes on behind the message that follows it.
first_round :
    (max fuel : ℕ) (store store' : List Stored) (m x y : ClientMsg) (xs ys : List ClientMsg)
    → direction_eq m.direction md_out ≡ false
    → (m.qos == 2) ≡ false
    → remove_between max store [] m (x ∷ xs) ≡ some (store', y ∷ ys)
    → reset_loop (suc fuel) max [] (m ∷ x ∷ xs) 0 0 store
      ≡ reset_loop fuel max (y ∷ []) ys 0 0 store'
unfolding reset_loop
first_round max fuel store store' m x y xs ys inward low gone =
    rw (inward, low, gone, reset_loop) refl

-- The reset, once its first round has left `y` and `ys`.
abbrev Short : (ℕ → ℕ) → ClientMsg → Option (List Stored × Context) → Type 0
Short others x o =
    (store' : List Stored) × (c' : Context) × (o ≡ some (store', c'))
    × IsTracked others store' (addrs c'.msgs)
    × (c'.msg_count + 1 ≡ length c'.msgs)
    × (c'.msg_count12 + one12 x ≡ qos12 c'.msgs)

after_first :
    (others : ℕ → ℕ) (lim : Limits) (store store' : List Stored) (c : Context) (m x y : ClientMsg)
    (xs ys : List ClientMsg)
    → direction_eq m.direction md_out ≡ false
    → (m.qos == 2) ≡ false
    → remove_between lim.max_inflight store [] m (x ∷ xs) ≡ some (store', y ∷ ys)
    → IsTracked others store' (addrs (y ∷ ys))
    → All IsStartable ys
    → length ys ≤ suc (length xs)
    → one12 y ≡ one12 x
    → Short others x (message_reconnect_reset lim store (record c { msgs = m ∷ x ∷ xs }))
unfolding message_reconnect_reset qos12
after_first others lim store store' c m x y xs ys inward low gone t ok fits same =
    let max = lim.max_inflight in
    let (ms, k, k12, f, kept) =
      reset_loop-Counts others 1 (one12 x) (suc (length xs)) max ys store' fits ok (y ∷ []) 0 0 t
        refl (omega (arith, same)) in
    let alike = IsKept-alike _ _ (start_first-IsAlike max 0 ms) kept in
    (
      store',
      record c { msgs = start_first max 0 ms; msg_count = k; msg_count12 = k12 },
      rw
          (
            first_round max (suc (length xs)) store store' m x y xs ys inward low gone,
            f,
            message_reconnect_reset,
          )
          refl,
      alike.tracked,
      alike.count,
      alike.count12,
    )

-- Where the counts of references are exact, an incoming message with a QoS other than 2 stands
-- first, and `x` and messages that may be reset stand behind it, the reset ends without a fault
-- and keeps the references exact, but its counts are wrong: it has not counted `x`, so msg_count
-- is one less than the number of messages, and msg_count12 is short by `x` if that has QoS 1 or 2.
pub message_reconnect_reset_skips :
    (others : ℕ → ℕ) (lim : Limits) (store : List Stored) (c : Context) (m x : ClientMsg)
    (xs : List ClientMsg)
    → m.direction ≡ md_in
    → (m.qos == 2) ≡ false
    → All IsStartable xs
    → IsTracked others store (addrs (m ∷ x ∷ xs))
    → (store' : List Stored) × (c' : Context) × (message_reconnect_reset lim store
          (record c { msgs = m ∷ x ∷ xs })
        ≡ some (store', c'))
      × IsTracked others store' (addrs c'.msgs)
      × (c'.msg_count + 1 ≡ length c'.msgs)
      × (c'.msg_count12 + one12 x ≡ qos12 c'.msgs)
message_reconnect_reset_skips others lim store c m x xs incoming low ok t =
    let max = lim.max_inflight in
    let inward : direction_eq m.direction md_out ≡ false = rw incoming refl in
    let (store', all, e, kept, size) =
      remove_between-IsKept others max store [] m (x ∷ xs) (length (m ∷ x ∷ xs))
        (qos12 (m ∷ x ∷ xs)) (record { tracked = t; count = refl; count12 = refl }) in
    let (y, ys, is) = nonempty (length xs) all (omega (arith, size)) in
    let promoted_all = removed_all max store store' [] m (x ∷ xs) all e in
    after_first others lim store store' c m x y xs ys inward low (e ∙ ap (λ l. some (store', l)) is)
      (subst (λ l. IsTracked others store' (addrs l)) is kept.tracked)
      (subst (λ l. All IsStartable (drop 1 l)) (sym promoted_all ∙ is)
        (behind_promoted max (x ∷ []) xs ok).1)
      (omega (arith, size, ap length is))
      (ap first12 (sym is ∙ promoted_all) ∙ promote-first12 max x xs)
