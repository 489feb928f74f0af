-- ===== src/Topic/Matching.antt =====
-- mosquitto_topic_matches_sub against the meaning of filters.
use kocom.Prelude.{
  ℕ, ◌≡◌, refl, sym, ap, ◌∙◌, Bool, true, false, not, ◌&&◌, ◌||◌, some, List, [], ◌∷◌, arith, ◌==◌,
  if◌then◌else◌, inl, inr, Bool-cases, ==_iff,
}
use mathlib.Core.Path.{subst}
use kocom.Proto.{err_success}
use kocom.Topic.{
  slash, plus, hash, dollar, is_nil, skip_level, match_loop, dollar_differs, topic_matches_sub,
}
use kocom.Topic.Levels.{levels, is_plain, levels_ok, levels_match, IsText, levels-Begins}
use kocom.Topic.Steps.{
  skip_level-levels, no_hash, match_from, Claim, Claim-end, Claim-short, Claim-same, plus-match,
  hash-match, other-match, skip_level-IsText, skip_level-plain, ends_early,
}

pub match_loop-differ :
    (s : ℕ) (ss : List ℕ) (t : ℕ) (ts : List ℕ)
    → (s == t) ≡ false
    → match_loop (s ∷ ss) (t ∷ ts) ≡ (
        if s == plus
        then (if is_nil (skip_level (t ∷ ts)) && is_nil ss
            then some true
            else match_loop ss (skip_level (t ∷ ts)))
        else if s == hash
        then some (is_nil ss)
        else some false)
unfolding match_loop
match_loop-differ s ss t ts d = ground arith

both_end :
    (q : Bool) (ss ts : List ℕ)
    → is_nil ss ≡ true
    → is_nil ts ≡ true
    → match_from q (levels ss) (levels ts) ≡ true
unfolding levels levels_match
both_end q [] [] a b = ground arith
both_end q [] (t ∷ ts) a b = cc
both_end q (s ∷ ss) ts a b = cc

Claim-plus :
    (mid : Bool) (s : ℕ) (ss : List ℕ) (t : ℕ) (ts : List ℕ)
    → IsText (s ∷ ss)
    → IsText (t ∷ ts)
    → (s == t) ≡ false
    → (s == plus) ≡ true
    → Claim true ss (skip_level (t ∷ ts))
    → Claim mid (s ∷ ss) (t ∷ ts)
unfolding no_hash
Claim-plus mid s ss t ts h k d p rest b ok np e w =
    let (em, okr, npr) = plus-match mid s ss t ts h k d p ok in
    em ∙ elim (Bool-cases (is_nil (skip_level (t ∷ ts)) && is_nil ss)) [
      | inl ends ↦
          both_end true ss (skip_level (t ∷ ts)) (ground arith) (ground arith)
          ∙ ground (arith, match_loop-differ s ss t ts d)
      | inr goes_on ↦
          rest b okr (ground arith) (ground (arith, match_loop-differ s ss t ts d)) (ground arith)
    ]

Claim-equal :
    (mid : Bool) (s : ℕ) (ss : List ℕ) (t : ℕ) (ts : List ℕ)
    → s ≡ t
    → IsText (s ∷ ss)
    → IsText (t ∷ ts)
    → is_plain (t ∷ ts) ≡ true
    → Claim (not (s == slash)) ss ts
    → Claim mid (s ∷ ss) (t ∷ ts)
Claim-equal mid s ss t ts q h =
    subst
      (λ u.
        IsText (u ∷ ts)
        → is_plain (u ∷ ts) ≡ true
        → Claim (not (s == slash)) ss ts
        → Claim mid (s ∷ ss) (u ∷ ts))
      q (Claim-same mid s ss ts h)

plain_tail : (t : ℕ) (ts : List ℕ) → is_plain (t ∷ ts) ≡ true → is_plain ts ≡ true
unfolding is_plain
plain_tail t ts pl = ground arith

claim : (mid : Bool) (ss ts : List ℕ) → IsText ss → IsText ts → is_plain ts ≡ true → Claim mid ss ts
claim mid [] [] h k pl b ok np e w = unfold match_loop in cc
claim mid [] (t ∷ ts) h k pl b ok np e w = Claim-end mid t ts k b ok np e w
claim mid (s ∷ ss) [] h k pl b ok np e w = Claim-short mid s ss h b ok np e w
claim mid (s ∷ ss) (t ∷ ts) h k pl b ok np e w = elim (Bool-cases (s == t)) [
  | inl same ↦
      Claim-equal mid s ss t ts ((==_iff s t).0 same) h k pl
        (claim (not (s == slash)) ss ts h.1 k.1 (plain_tail t ts pl)) b ok np e w
  | inr d ↦ elim (Bool-cases (s == plus)) [
    | inl p ↦
        Claim-plus mid s ss t ts h k d p
          (claim true ss (skip_level (t ∷ ts)) h.1 (skip_level-IsText (t ∷ ts) k)
            (skip_level-plain (t ∷ ts) pl))
          b ok np e w
    | inr np' ↦ elim (Bool-cases (s == hash)) [
      | inl x ↦
          let (em, en) = hash-match mid s ss t ts h k d x ok in
          em ∙ ground (arith, match_loop-differ s ss t ts d)
      | inr nh ↦
          other-match mid s ss t ts h k d np' nh ∙ ground (arith, match_loop-differ s ss t ts d)
    ]
  ]
]

-- MQTT's rule for topics that start with $: no wildcard at the start of a filter takes one in.
abbrev pub filter_matches : List ℕ → List ℕ → Bool
filter_matches sub topic =
    not (dollar_differs sub topic) && levels_match (levels sub) (levels topic)

-- The loop sets the result unless both texts are empty.
match_loop-sets :
    (ss ts : List ℕ) → (is_nil ss && is_nil ts) ≡ false → (b : Bool) × (match_loop ss ts ≡ some b)
unfolding match_loop ends_early
match_loop-sets [] [] h = cc
match_loop-sets [] (t ∷ ts) h = (false, refl)
match_loop-sets (s ∷ ss) [] h = (false, refl)
match_loop-sets (s ∷ ss) (t ∷ ts) h = elim (Bool-cases (s == t)) [
  | inl same ↦ elim (Bool-cases (ends_early ss ts)) [
    | inl early ↦ (true, ground arith)
    | inr late ↦ let (b, e) = match_loop-sets ss ts (ground arith) in (b, ground arith)
  ]
  | inr d ↦ elim (Bool-cases (is_nil ss && is_nil (skip_level (t ∷ ts)))) [
    | inl both ↦ (
      if s == plus then true else if s == hash then is_nil ss else false,
      match_loop-differ s ss t ts d ∙ ground arith,
    )
    | inr more ↦
        let (b, e) = match_loop-sets ss (skip_level (t ∷ ts)) more in
        (
          if s == plus then b else if s == hash then is_nil ss else false,
          match_loop-differ s ss t ts d ∙ ground arith,
        )
  ]
]

module _ (sub topic : List ℕ) (text_sub : IsText sub) (text_topic : IsText topic)
    (ok : levels_ok (levels sub) ≡ true) (plain : is_plain topic ≡ true)
    (some_topic : is_nil topic ≡ false) where
  matches_as_meant :
      (b : Bool)
      → match_loop sub topic ≡ some b
      → (b || no_hash sub) ≡ true
      → levels_match (levels sub) (levels topic) ≡ b
  matches_as_meant b e w =
      let (l, ls, bs) = levels-Begins sub text_sub in
      let (m, ms, bt) = levels-Begins topic text_topic in
      let start : match_from false (levels sub) (levels topic) ≡ b =
        claim false sub topic text_sub text_topic plain b (ground (arith, bs.split)) (ground arith)
          e w in
      ground (arith, bs.split, bt.split, start)

  -- For a well-formed filter without #, and a topic that is not empty and holds no wildcard, the
  -- function returns success and sets *result to whether the filter matches the topic, level by
  -- level and by the rule for $.
  pub topic_matches_sub-exact :
      no_hash sub ≡ true
      → topic_matches_sub (some sub) (some topic) true
        ≡ (err_success, some (filter_matches sub topic))
  unfolding topic_matches_sub
  topic_matches_sub-exact w =
      let (b, e) = match_loop-sets sub topic (ground arith) in
      ground (arith, e, matches_as_meant b e)

  -- For any well-formed filter, and a topic that is not empty and holds no wildcard, the function
  -- returns success and sets *result, and sets it to false if the filter does not match the topic.
  pub topic_matches_sub-no_false_match :
      filter_matches sub topic ≡ false
      → topic_matches_sub (some sub) (some topic) true ≡ (err_success, some false)
  unfolding topic_matches_sub
  topic_matches_sub-no_false_match n =
      let (b, e) = match_loop-sets sub topic (ground arith) in
      ground (arith, e, matches_as_meant b e)

  -- The answer is set, and is right where the filter does not match, or where it has no #.
  pub topic_matches_sub-answers :
      (b : Bool) × (topic_matches_sub (some sub) (some topic) true ≡ (err_success, some b))
      × (filter_matches sub topic ≡ false → b ≡ false)
      × (no_hash sub ≡ true → b ≡ filter_matches sub topic)
  unfolding topic_matches_sub
  topic_matches_sub-answers =
      let (b, e) = match_loop-sets sub topic (ground arith) in
      elim (Bool-cases (dollar_differs sub topic)) [
        | inl d ↦ (false, ground (arith, d), λ n. refl, λ w. ground (arith, d))
        | inr d ↦ (
          b,
          ground (arith, d, e),
          (λ n. ground (arith, d, n, matches_as_meant b e)),
          (λ w. ground (arith, d, matches_as_meant b e)),
        )
      ]

-- For a topic of one level that is not empty, holds no wildcard and does not start with $, the
-- filter "+/#" matches by its meaning, since # stands also for no level at all, yet the function
-- answers that it does not.
pub topic_matches_sub-plus-hash :
    (t : ℕ) (ts : List ℕ)
    → IsText (t ∷ ts)
    → is_plain (t ∷ ts) ≡ true
    → (t == dollar) ≡ false
    → skip_level (t ∷ ts) ≡ []
    → (filter_matches (plus ∷ slash ∷ hash ∷ []) (t ∷ ts) ≡ true)
      × (topic_matches_sub (some (plus ∷ slash ∷ hash ∷ [])) (some (t ∷ ts)) true
          ≡ (err_success, some false))
unfolding topic_matches_sub match_loop levels levels_match is_plain
topic_matches_sub-plus-hash t ts h pl nd one =
    let (m, ms, b) = levels-Begins (t ∷ ts) h in
    let no_more : levels [] ≡ [] ∷ ms =
      ap levels (sym one) ∙ skip_level-levels (t ∷ ts) m ms h b.split in
    (ground (arith, b.split, no_more), ground (arith, one))
