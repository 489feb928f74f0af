-- ===== src/Broker/Reset.antt =====
-- mqtt3_db_message_reconnect_reset of src/database.c.
pub mod Skips
use kocom.Prelude.{
  ℕ, zero, suc, ◌+◌, ◌≤◌, ◌≡◌, refl, true, false, ◌||◌, Option, none, some, List, [], ◌∷◌, ◌++◌,
  All, arith, ltb, ◌==◌, if◌then◌else◌, inl, inr, Bool-cases, length, take, drop, length-append,
  append_assoc, append-nil,
}
use kocom.Proto.{
  publish_qos2, resend_pubrel, wait_for_pubcomp, queued, state_eq, md_in, md_out, direction_eq,
}
use kocom.Broker.{Stored, ClientMsg, Context, Limits, remove_between, publish_state}
use kocom.Broker.Store.{addrs, IsTracked}
use kocom.Broker.Keeps.{
  qos12, qos12-append, IsKept, Keeps, IsAlike, IsAlike-refl, IsAlike-cons, IsKept-alike,
}
use kocom.Broker.Write.Rounds.{IsStartable, changed_middle}

-- An outgoing message, unless it is queued, is to be sent again from where its exchange stands.
unfoldable pub resent : ClientMsg → ClientMsg
resent m = if state_eq m.state queued then m else record m {
  state =
      if m.qos == 2
      then (if state_eq m.state wait_for_pubcomp then resend_pubrel else publish_qos2)
      else publish_state m.qos m.state;
}

-- The first loop, with the messages that it has passed, its two counts, and fuel; the result has the
-- store, the messages and the counts. When a message is removed, the one behind it becomes `prev`
-- and is passed over, uncounted. `none` is a fault, or the end of the fuel.
unfoldable pub reset_loop :
    ℕ
    → ℕ
    → List ClientMsg
    → List ClientMsg
    → ℕ
    → ℕ
    → List Stored
    → Option (List Stored × List ClientMsg × ℕ × ℕ)
reset_loop fuel max_inflight before [] n n12 store = some (store, before, n, n12)
reset_loop zero max_inflight before (m ∷ ms) n n12 store = none
reset_loop (suc fuel) max_inflight before (m ∷ ms) n n12 store =
    let more = if ltb 0 m.qos then n12 + 1 else n12 in
    elim (direction_eq m.direction md_out) [
      | true ↦ reset_loop fuel max_inflight (before ++ (resent m ∷ [])) ms (n + 1) more store
      | false ↦ elim (m.qos == 2) [
        | true ↦ reset_loop fuel max_inflight (before ++ (m ∷ [])) ms (n + 1) more store
        | false ↦ elim (remove_between max_inflight store before m ms) [
          | none ↦ none
          | some (store', all) ↦ elim (drop (length before) all) [
            | [] ↦ some (store', all, n, n12)
            | x ∷ xs ↦
                reset_loop fuel max_inflight (take (length before) all ++ (x ∷ [])) xs n n12 store'
          ]
        ]
      ]
    ]

-- The second loop: queued messages among the first ones are made ready, whichever way they go.
unfoldable pub start_first : ℕ → ℕ → List ClientMsg → List ClientMsg
start_first max_inflight count [] = []
start_first max_inflight count (m ∷ ms) =
    let rest = start_first max_inflight (count + 1) ms in
    if max_inflight == 0 || ltb count max_inflight
    then (if state_eq m.state queued then record m { state = publish_state m.qos m.state } else m)
      ∷ rest
    else m ∷ ms

unfoldable pub message_reconnect_reset :
    Limits → List Stored → Context → Option (List Stored × Context)
message_reconnect_reset lim store c =
    elim (reset_loop (length c.msgs) lim.max_inflight [] c.msgs 0 0 store) [
      | none ↦ none
      | some (store', ms, n, n12) ↦ some (
        store',
        record c { msgs = start_first lim.max_inflight 0 ms; msg_count = n; msg_count12 = n12 },
      )
    ]

pub start_first-IsAlike :
    (max count : ℕ) (ms : List ClientMsg) → IsAlike ms (start_first max count ms)
unfolding start_first
start_first-IsAlike max count [] = IsAlike-refl []
start_first-IsAlike max count (m ∷ ms) = elim (Bool-cases (max == 0 || ltb count max)) [
  | inl room ↦
      rw room (
        IsAlike-cons m _ ms _ (ground arith) (ground arith)
          (start_first-IsAlike max (count + 1) ms))
  | inr full ↦ rw full (IsAlike-refl (m ∷ ms))
]

resent-same : (m : ClientMsg) → ((resent m).store ≡ m.store) × ((resent m).qos ≡ m.qos)
unfolding resent
resent-same m = ground arith

-- The loop has kept all messages and counted them, but for `d` and `d12` that it was short of.
abbrev pub Counted :
    (ℕ → ℕ) → ℕ → ℕ → List Stored → Option (List Stored × List ClientMsg × ℕ × ℕ) → Type 0
Counted others d d12 store o =
    (ms : List ClientMsg) × (k : ℕ) × (k12 : ℕ) × (o ≡ some (store, ms, k, k12))
    × IsKept others store ms (k + d) (k12 + d12)

-- The loop behind the messages of `before`, once they have been counted but for those.
abbrev pub Counts : (ℕ → ℕ) → ℕ → ℕ → ℕ → ℕ → List ClientMsg → List Stored → Type 0
Counts others d d12 fuel max ms store =
    (before : List ClientMsg) (n n12 : ℕ)
    → IsTracked others store (addrs (before ++ ms))
    → n + d ≡ length before
    → n12 + d12 ≡ qos12 before
    → Counted others d d12 store (reset_loop fuel max before ms n n12 store)

one_more :
    (others : ℕ → ℕ) (d d12 fuel max : ℕ) (m m' : ClientMsg) (ms : List ClientMsg)
    (store : List Stored) (before : List ClientMsg) (n n12 : ℕ)
    → Counts others d d12 fuel max ms store
    → m'.store ≡ m.store
    → m'.qos ≡ m.qos
    → IsTracked others store (addrs (before ++ (m ∷ ms)))
    → n + d ≡ length before
    → n12 + d12 ≡ qos12 before
    → Counted others d d12 store (
        reset_loop fuel max
          (before ++ (m' ∷ []))
          ms
          (n + 1)
          (if ltb 0 m.qos then n12 + 1 else n12)
          store)
unfolding qos12
one_more others d d12 fuel max m m' ms store before n n12 rest s q t e e12 =
    let alike = changed_middle before m m' ms s q in
    rest (before ++ (m' ∷ [])) (n + 1) (if ltb 0 m.qos then n12 + 1 else n12)
      (rw (append_assoc before (m' ∷ []) ms, alike.pointers) t)
      (omega (arith, e, length-append before (m' ∷ [])))
      (ground (arith, e12, q, qos12-append before (m' ∷ [])))

pub reset_loop-Counts :
    (others : ℕ → ℕ) (d d12 fuel max : ℕ) (ms : List ClientMsg) (store : List Stored)
    → length ms ≤ fuel
    → All IsStartable ms
    → Counts others d d12 fuel max ms store
unfolding reset_loop
reset_loop-Counts others d d12 fuel max [] store f ok before n n12 t e e12 = (
  before,
  n,
  n12,
  refl,
  record { tracked = rw (append-nil before) at t; count = e; count12 = e12 },
)
reset_loop-Counts others d d12 zero max (m ∷ ms) store f ok before n n12 t e e12 =
    absurd (omega arith)
reset_loop-Counts others d d12 (suc fuel) max (m ∷ ms) store f ok before n n12 t e e12 =
    let rest = reset_loop-Counts others d d12 fuel max ms store (omega (arith, f)) ok.1 in
    elim (Bool-cases (direction_eq m.direction md_out)) [
      | inl out ↦
          let (s, q) = resent-same m in
          rw (out, reset_loop)
            (one_more others d d12 fuel max m (resent m) ms store before n n12 rest s q t e e12)
      | inr incoming ↦
          let two : (m.qos == 2) ≡ true = let h = ok.0 in ground (arith, incoming, h) in
          rw (incoming, two, reset_loop)
            (one_more others d d12 fuel max m m ms store before n n12 rest refl refl t e e12)
    ]

-- Where the counts of references are exact and every incoming message has QoS 2, the reset on a
-- reconnect ends, within the fuel and without a fault, and counts anew: whatever the two counts of
-- messages were before, they are exact afterwards. The store does not change.
pub message_reconnect_reset-Keeps :
    (others : ℕ → ℕ) (lim : Limits) (store : List Stored) (c : Context)
    → All IsStartable c.msgs
    → IsTracked others store (addrs c.msgs)
    → (c' : Context) × (message_reconnect_reset lim store c ≡ some (store, c'))
      × Keeps others store c'
unfolding message_reconnect_reset qos12
message_reconnect_reset-Keeps others lim store c ok t =
    let (ms, k, k12, e, kept) =
      reset_loop-Counts others 0 0 (length c.msgs) lim.max_inflight c.msgs store (omega arith) ok []
        0 0 t refl refl in
    let same : k + 0 ≡ k = omega arith in
    let same12 : k12 + 0 ≡ k12 = omega arith in
    (
      record c { msgs = start_first lim.max_inflight 0 ms; msg_count = k; msg_count12 = k12 },
      rw (e, message_reconnect_reset) refl,
      IsKept-alike _ _ (start_first-IsAlike lim.max_inflight 0 ms) (rw (same, same12) at kept),
    )
