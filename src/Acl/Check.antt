-- ===== src/Acl/Check.antt =====
-- What mosquitto_acl_check_default decides.
use kocom.Prelude.{
  ℕ, ◌≡◌, refl, ◌∙◌, Bool, true, false, not, ◌&&◌, ◌||◌, Option, none, some, List, [], ◌∷◌, All,
  arith, if◌then◌else◌, inl, inr, Bool-cases, is_some,
}
use mathlib.Core.Path.{subst}
use kocom.Proto.{err_success, err_acl_denied}
use kocom.Topic.{is_nil}
use kocom.Topic.Levels.{is_plain, IsText}
use kocom.Acl.Loops.{
  IsFilter, Says, Says-step, any_entry, no_hash_entry, any_pattern, no_hash_pattern, user_loop-Says,
  pattern_loop-Says,
}
use kocom.Acl.{
  Acl, AclDb, AclClient, Verdict, fault, allowed, goes_on, user_loop, pattern_loop, substitute,
  is_empty, entries, acl_check_default,
}
use kocom.Acl.Buffer.{IsPattern}

-- The return code.
outcome : Verdict → Option ℕ
outcome fault = none
outcome allowed = some err_success
outcome (goes_on result) = some err_acl_denied

both_loops :
    (u : Verdict) (k : Option Bool → Verdict)
    → (elim u [
      | fault ↦ none
      | allowed ↦ some err_success
      | goes_on r ↦ elim (k r) [
        | fault ↦ none
        | allowed ↦ some err_success
        | goes_on r' ↦ some err_acl_denied
      ]
    ])
      ≡ outcome (elim u [ fault ↦ fault | allowed ↦ allowed | goes_on r ↦ k r ])
unfolding outcome
both_loops fault k = refl
both_loops allowed k = refl
both_loops (goes_on r) k = go (k r)
  where
    go :
        (v : Verdict)
        → (elim v [ fault ↦ none | allowed ↦ some err_success | goes_on r' ↦ some err_acl_denied ])
          ≡ outcome v
    go fault = refl
    go allowed = refl
    go (goes_on r') = refl

Says-exact :
    (any : Bool) (v : Verdict)
    → Says true any v
    → outcome v ≡ some (if any then err_success else err_acl_denied)
unfolding outcome Says
Says-exact any fault h = absurd h
Says-exact any allowed h = rw h refl
Says-exact any (goes_on r) h = rw (h refl) refl

Says-denied : (exact : Bool) (v : Verdict) → Says exact false v → outcome v ≡ some err_acl_denied
unfolding outcome Says
Says-denied exact fault h = absurd h
Says-denied exact allowed h = cc
Says-denied exact (goes_on r) h = refl

-- No check is made: there are no lists, or the client is a bridge.
abbrev pub is_exempt : AclDb → AclClient → Bool
is_exempt db c = is_empty db.acl_list && is_empty db.acl_patterns || is_some c.bridge

-- The access is granted by an entry of the client or by a pattern.
unfoldable pub is_granted : AclDb → List ℕ → AclClient → List ℕ → ℕ → Bool
unfolding any_entry any_pattern
is_granted db id c topic access =
    any_entry topic access (entries c.acl_list)
    || any_pattern id c.username topic access db.acl_patterns

-- Nothing is granted by no entries.
no_entries :
    (db : AclDb) (id : List ℕ) (c : AclClient) (topic : List ℕ) (access : ℕ)
    → (not (is_some c.acl_list) && is_empty db.acl_patterns) ≡ true
    → is_granted db id c topic access ≡ false
unfolding is_granted any_entry any_pattern
no_entries db id c topic access h = go c.acl_list db.acl_patterns h
  where
    go :
        (own : Option (List Acl)) (patterns : List Acl)
        → (not (is_some own) && is_empty patterns) ≡ true
        → (any_entry topic access (entries own) || any_pattern id c.username topic access patterns)
          ≡ false
    go none [] h = refl
    go none (a ∷ acls) h = cc
    go (some own) patterns h = cc

module _ (db : AclDb) (id : List ℕ) (c : AclClient) (topic : List ℕ) (access : ℕ)
    (text : IsText topic) (plain : is_plain topic ≡ true) (some_topic : is_nil topic ≡ false)
    (own : All (λ a. IsFilter a.topic) (entries c.acl_list))
    (patterns : All
      (λ a. IsPattern a × IsFilter (substitute id c.username a.topic))
      db.acl_patterns) where
  checked : Verdict
  checked = elim (user_loop topic access (entries c.acl_list) none) [
    | fault ↦ fault
    | allowed ↦ allowed
    | goes_on r ↦ pattern_loop id c.username topic access db.acl_patterns r
  ]

  checked-Says :
      Says
        (no_hash_entry (entries c.acl_list) && no_hash_pattern id c.username db.acl_patterns)
        (is_granted db id c topic access)
        checked
  unfolding checked is_granted
  checked-Says =
      Says-step _ _ _ _ _ (λ r. pattern_loop id c.username topic access db.acl_patterns r)
        (user_loop-Says topic access text plain some_topic (entries c.acl_list) none own)
        (λ r.
          pattern_loop-Says topic access text plain some_topic id c.username db.acl_patterns r
            patterns)

  check-outcome :
      is_exempt db c ≡ false
      → (not (is_some c.acl_list) && is_empty db.acl_patterns) ≡ false
      → acl_check_default db id c topic access ≡ outcome checked
  unfolding acl_check_default checked
  check-outcome x y =
      let first : (is_empty db.acl_list && is_empty db.acl_patterns) ≡ false = ground arith in
      let bridge : is_some c.bridge ≡ false = ground arith in
      rw (acl_check_default, first, bridge, y)
        (both_loops (user_loop topic access (entries c.acl_list) none)
          (λ r. pattern_loop id c.username topic access db.acl_patterns r))

  -- The return before the loops.
  check-nothing :
      is_exempt db c ≡ false
      → (not (is_some c.acl_list) && is_empty db.acl_patterns) ≡ true
      → acl_check_default db id c topic access ≡ some err_acl_denied
  unfolding acl_check_default
  check-nothing x y =
      let first : (is_empty db.acl_list && is_empty db.acl_patterns) ≡ false = ground arith in
      let bridge : is_some c.bridge ≡ false = ground arith in
      rw (acl_check_default, first, bridge, y) refl

  check-exempt : is_exempt db c ≡ true → acl_check_default db id c topic access ≡ some err_success
  unfolding acl_check_default
  check-exempt x = elim (Bool-cases (is_empty db.acl_list && is_empty db.acl_patterns)) [
    | inl nothing ↦ rw (acl_check_default, nothing) refl
    | inr lists ↦
        let bridge : is_some c.bridge ≡ true = ground arith in
        rw (acl_check_default, lists, bridge) refl
  ]

  -- Access is denied, and no unset variable is read, if lists exist, the client is no bridge, and
  -- by the meaning of the filters neither an entry of the client nor a pattern that applies to it
  -- grants the access. The topic is not empty and holds no wildcard, the filters, with the id and
  -- the user name put in, are well formed, and the patterns have their counts.
  pub acl_check_default-denied :
      is_exempt db c ≡ false
      → is_granted db id c topic access ≡ false
      → acl_check_default db id c topic access ≡ some err_acl_denied
  acl_check_default-denied x g =
      elim (Bool-cases (not (is_some c.acl_list) && is_empty db.acl_patterns)) [
        | inl nothing ↦ check-nothing x nothing
        | inr lists ↦
            let exact =
              no_hash_entry (entries c.acl_list) && no_hash_pattern id c.username db.acl_patterns in
            check-outcome x lists
            ∙ Says-denied exact checked (subst (λ a. Says exact a checked) g checked-Says)
      ]

  -- Where no filter has a #, access is granted if there are no lists, if the client is a bridge, or
  -- if by the meaning of the filters an entry of the client or a pattern that applies to it grants
  -- the access, and it is denied otherwise. The topic is not empty and holds no wildcard, the
  -- filters, with the id and the user name put in, are well formed, and the patterns have their
  -- counts.
  pub acl_check_default-exact :
      no_hash_entry (entries c.acl_list) ≡ true
      → no_hash_pattern id c.username db.acl_patterns ≡ true
      → acl_check_default db id c topic access
        ≡ some (
            if is_exempt db c || is_granted db id c topic access
            then err_success
            else err_acl_denied)
  acl_check_default-exact n m = elim (Bool-cases (is_exempt db c)) [
    | inl free ↦ rw free (check-exempt free)
    | inr x ↦ elim (Bool-cases (not (is_some c.acl_list) && is_empty db.acl_patterns)) [
      | inl nothing ↦ rw (x, no_entries db id c topic access nothing) (check-nothing x nothing)
      | inr lists ↦ rw x (
          check-outcome x lists
          ∙ Says-exact (is_granted db id c topic access) checked (
              subst (λ e. Says e (is_granted db id c topic access) checked) (ground (arith, n, m))
                checked-Says))
    ]
  ]
