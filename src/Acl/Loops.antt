-- ===== src/Acl/Loops.antt =====
-- The loops of mosquitto_acl_check_default against the meaning of the filters.
use kocom.Prelude.{
  ℕ, ◌≡◌, refl, Bool, true, false, not, ◌&&◌, ◌||◌, Option, some, List, [], ◌∷◌, All, arith,
  bit_and, ◌==◌, if◌then◌else◌, inl, inr, Bool-cases, is_some,
}
use kocom.Topic.{dollar, char0, is_nil}
use kocom.Topic.Levels.{levels, levels_match, levels_ok, is_plain, IsText}
use kocom.Topic.Steps.{no_hash}
use kocom.Topic.Matching.{filter_matches, topic_matches_sub-answers}
use kocom.Tree.Tokens.{levels-dollar}
use kocom.Acl.{
  Acl, Verdict, fault, allowed, goes_on, try_filter, user_loop, pattern_loop, substitute,
}
use kocom.Acl.Buffer.{IsPattern, local_acl-exact}

-- An entry with this filter grants the access.
abbrev pub grants : List ℕ → List ℕ → ℕ → ℕ → Bool
grants filter topic access granted =
    filter_matches filter topic && not (bit_and access granted == 0)

-- A well-formed filter.
unfoldable pub IsFilter : List ℕ → Type 0
unfolding levels levels_ok
IsFilter filter = IsText filter × (levels_ok (levels filter) ≡ true)

-- A result, where `any` says whether access is to be granted: there is no fault, access is granted only
-- then, and it is refused only if not, provided that the filters are `exact`.
unfoldable pub Says : Bool → Bool → Verdict → Type 0
Says exact any fault = ⊥
Says exact any allowed = any ≡ true
Says exact any (goes_on result) = exact ≡ true → any ≡ false

Says-if :
    (exact b m g : Bool) (result : Option Bool)
    → (m ≡ false → b ≡ false)
    → (exact ≡ true → b ≡ m)
    → Says exact (m && g) (if b && g then allowed else goes_on result)
unfolding Says
Says-if exact true true true result low ex = refl
Says-if exact true true false result low ex = λ w. refl
Says-if exact true false g result low ex = let no = low refl in cc
Says-if exact false true g result low ex = λ w. let no = ex w in cc
Says-if exact false false g result low ex = λ w. refl

-- After an entry that does not decide, the others do.
Says-after :
    (exact any exact' any' : Bool) (v : Verdict)
    → (exact ≡ true → any ≡ false)
    → Says exact' any' v
    → Says (exact && exact') (any || any') v
unfolding Says
Says-after exact any exact' any' fault h k = k
Says-after exact any exact' any' allowed h k = ground (arith, k)
Says-after exact any exact' any' (goes_on r) h k = λ w. ground (arith, h, k)

pub Says-step :
    (exact any exact' any' : Bool) (v : Verdict) (rest : Option Bool → Verdict)
    → Says exact any v
    → ((r : Option Bool) → Says exact' any' (rest r))
    → Says
        (exact && exact')
        (any || any')
        (elim v [ fault ↦ fault | allowed ↦ allowed | goes_on r ↦ rest r ])
unfolding Says
Says-step exact any exact' any' fault rest h k = h
Says-step exact any exact' any' allowed rest h k = ground (arith, h)
Says-step exact any exact' any' (goes_on r) rest h k =
    Says-after exact any exact' any' (rest r) h (k r)

-- A filter that does not start with $ does not match a topic that does.
dollar-guard :
    (filter topic : List ℕ)
    → (char0 topic == dollar && not (char0 filter == dollar)) ≡ true
    → filter_matches filter topic ≡ false
dollar-guard filter [] h = cc
dollar-guard [] (d ∷ topic) h =
    let (l, ls, e) = levels-dollar d topic (ground arith) in
    rw e (unfold levels levels_match in refl)
dollar-guard (c ∷ filter) (d ∷ topic) h = ground arith

-- What the two lists of entries say, by the meaning of their filters; whether no filter has a #.
unfoldable pub any_entry : List ℕ → ℕ → List Acl → Bool
any_entry topic access [] = false
any_entry topic access (a ∷ acls) =
    grants a.topic topic access a.access || any_entry topic access acls

unfoldable pub no_hash_entry : List Acl → Bool
no_hash_entry [] = true
no_hash_entry (a ∷ acls) = no_hash a.topic && no_hash_entry acls

-- A pattern for a user name counts only for a client that has one.
abbrev pub is_skipped : Option (List ℕ) → Acl → Bool
is_skipped user a = not (a.ucount == 0) && not (is_some user)

unfoldable pub any_pattern : List ℕ → Option (List ℕ) → List ℕ → ℕ → List Acl → Bool
any_pattern id user topic access [] = false
any_pattern id user topic access (a ∷ acls) =
    not (is_skipped user a) && grants (substitute id user a.topic) topic access a.access
    || any_pattern id user topic access acls

unfoldable pub no_hash_pattern : List ℕ → Option (List ℕ) → List Acl → Bool
no_hash_pattern id user [] = true
no_hash_pattern id user (a ∷ acls) =
    (is_skipped user a || no_hash (substitute id user a.topic)) && no_hash_pattern id user acls

module _ (topic : List ℕ) (access : ℕ) (text : IsText topic) (plain : is_plain topic ≡ true)
    (some_topic : is_nil topic ≡ false) where
  try_filter-Says :
      (filter : List ℕ) (granted : ℕ) (result : Option Bool)
      → IsFilter filter
      → Says
          (no_hash filter)
          (grants filter topic access granted)
          (try_filter filter topic access granted result)
  unfolding try_filter Says IsFilter
  try_filter-Says filter granted result (t, ok) =
      let (b, e, low, exact) = topic_matches_sub-answers filter topic t text ok plain some_topic in
      rw (try_filter, e) (Says-if _ b _ _ (some b) low exact)

  pub user_loop-Says :
      (acls : List Acl) (result : Option Bool)
      → All (λ a. IsFilter a.topic) acls
      → Says (no_hash_entry acls) (any_entry topic access acls) (user_loop topic access acls result)
  unfolding user_loop Says any_entry no_hash_entry
  user_loop-Says [] result h = λ w. refl
  user_loop-Says (a ∷ acls) result (f, fs) =
      elim (Bool-cases (char0 topic == dollar && not (char0 a.topic == dollar))) [
        | inl guard ↦
            rw (user_loop, guard)
              (Says-after (no_hash a.topic) (grants a.topic topic access a.access) _ _ _
                (λ w. ground (arith, dollar-guard a.topic topic guard))
                (user_loop-Says acls result fs))
        | inr passes ↦
            rw (user_loop, passes)
              (Says-step (no_hash a.topic) (grants a.topic topic access a.access) _ _ _
                (λ r. user_loop topic access acls r) (try_filter-Says a.topic a.access result f)
                (λ r. user_loop-Says acls r fs))
      ]

  pub pattern_loop-Says :
      (id : List ℕ) (user : Option (List ℕ)) (acls : List Acl) (result : Option Bool)
      → All (λ a. IsPattern a × IsFilter (substitute id user a.topic)) acls
      → Says
          (no_hash_pattern id user acls)
          (any_pattern id user topic access acls)
          (pattern_loop id user topic access acls result)
  unfolding pattern_loop Says any_pattern no_hash_pattern
  pattern_loop-Says id user [] result h = λ w. refl
  pattern_loop-Says id user (a ∷ acls) result ((p, f), fs) =
      elim (Bool-cases (not (a.ucount == 0) && not (is_some user))) [
        | inl skip ↦ rw (pattern_loop, skip) (pattern_loop-Says id user acls result fs)
        | inr takes ↦
            rw (pattern_loop, takes, local_acl-exact id user a p)
              (Says-step (no_hash (substitute id user a.topic))
                (grants (substitute id user a.topic) topic access a.access) _ _ _
                (λ r. pattern_loop id user topic access acls r)
                (try_filter-Says (substitute id user a.topic) a.access result f)
                (λ r. pattern_loop-Says id user acls r fs))
      ]
