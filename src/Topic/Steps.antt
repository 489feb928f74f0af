-- ===== src/Topic/Steps.antt =====
-- One round of the loop of mosquitto_topic_matches_sub, on the levels that follow.
use kocom.Prelude.{
  text_eq, ℕ, ◌≡◌, refl, ap, ◌∙◌, Bool, true, false, not, ◌&&◌, ◌||◌, some, List, [], ◌∷◌, arith,
  ◌==◌, if◌then◌else◌, inl, inr, Bool-cases,
}
use kocom.Topic.{slash, plus, hash, is_char, is_nil, is_slash_hash, skip_level, match_loop}
use kocom.Topic.Levels.{
  levels, is_plain, levels_ok, levels_match, IsText, levels-Begins, levels_ok-push, levels_ok-empty,
}

unfoldable pub no_hash : List ℕ → Bool
no_hash [] = true
no_hash (c ∷ str) = not (c == hash) && no_hash str

-- The levels from some place in the filter on. `mid` is that the first one has been begun.
abbrev pub ok_from : Bool → List (List ℕ) → Bool
ok_from mid [] = true
ok_from mid (l ∷ ls) = if mid then is_plain l && levels_ok ls else levels_ok (l ∷ ls)

abbrev pub match_from : Bool → List (List ℕ) → List (List ℕ) → Bool
match_from mid [] ms = false
match_from mid (l ∷ ls) [] = false
match_from mid (l ∷ ls) (m ∷ ms) =
    if mid then text_eq l m && levels_match ls ms else levels_match (l ∷ ls) (m ∷ ms)

abbrev no_hash_levels : List (List ℕ) → Bool
no_hash_levels [] = true
no_hash_levels (l ∷ ls) = not (is_char hash l) && no_hash_levels ls

no_hash-levels :
    (str : List ℕ) → IsText str → no_hash str ≡ true → no_hash_levels (levels str) ≡ true
unfolding no_hash levels
no_hash-levels [] h n = refl
no_hash-levels (c ∷ str) h n =
    let (l, ls, b) = levels-Begins str h.1 in
    ground (arith, b.split, ap no_hash_levels b.split, no_hash-levels str h.1)

pub skip_level-levels :
    (ts m : List ℕ) (ms : List (List ℕ))
    → IsText ts
    → levels ts ≡ m ∷ ms
    → levels (skip_level ts) ≡ [] ∷ ms
unfolding levels skip_level
skip_level-levels [] m ms h e = ground arith
skip_level-levels (t ∷ ts) m ms h e =
    let (l', ls', b) = levels-Begins ts h.1 in
    ground (arith, b.split, skip_level-levels ts l' ls' h.1 b.split)

pub skip_level-IsText : (ts : List ℕ) → IsText ts → IsText (skip_level ts)
unfolding skip_level
skip_level-IsText [] h = h
skip_level-IsText (t ∷ ts) h = ground (arith, skip_level-IsText ts h.1)

pub skip_level-plain : (ts : List ℕ) → is_plain ts ≡ true → is_plain (skip_level ts) ≡ true
unfolding skip_level is_plain
skip_level-plain [] h = h
skip_level-plain (t ∷ ts) h = ground (arith, skip_level-plain ts)

-- One of the claims: a result of true is right, and so is any result for a filter without #.
abbrev pub Claim : Bool → List ℕ → List ℕ → Type 0
Claim mid ss ts =
    (b : Bool)
    → ok_from mid (levels ss) ≡ true
    → (is_nil ts && is_char plus ss) ≡ false
    → match_loop ss ts ≡ some b
    → (b || no_hash ss) ≡ true
    → match_from mid (levels ss) (levels ts) ≡ b

pub Claim-end : (mid : Bool) (t : ℕ) (ts : List ℕ) → IsText (t ∷ ts) → Claim mid [] (t ∷ ts)
unfolding match_loop levels levels_match no_hash
Claim-end mid t ts h b ok np e w =
    let (m, ms, bt) = levels-Begins ts h.1 in ground (arith, bt.split)

pub Claim-short : (mid : Bool) (s : ℕ) (ss : List ℕ) → IsText (s ∷ ss) → Claim mid (s ∷ ss) []
unfolding match_loop levels levels_match no_hash is_plain
Claim-short mid s ss h b ok np e w =
    let (l, ls, bs) = levels-Begins ss h.1 in
    ground (
      arith,
      bs.split,
      bs.last,
      bs.first,
      ap no_hash_levels bs.split,
      no_hash-levels ss h.1,
      levels_ok-push s l ls,
    )

-- A character that both have, and that is no wildcard, is taken off both.
module _ (mid : Bool) (s : ℕ) (ss ts : List ℕ) (h : IsText ss) (k : IsText ts) where
  same-match :
      (s == plus) ≡ false
      → (s == hash) ≡ false
      → match_from mid (levels (s ∷ ss)) (levels (s ∷ ts))
        ≡ match_from (not (s == slash)) (levels ss) (levels ts)
  unfolding levels levels_match
  same-match np nh =
      let (l, ls, bs) = levels-Begins ss h in
      let (m, ms, bt) = levels-Begins ts k in ground (arith, bs.split, bt.split, single l, single m)
    where
      single : (l : List ℕ) → (is_char plus (s ∷ l) ≡ false) × (is_char hash (s ∷ l) ≡ false)
      single [] = (np, nh)
      single (c ∷ l) = (refl, refl)

  same-ok :
      (s == plus) ≡ false
      → (s == hash) ≡ false
      → ok_from mid (levels (s ∷ ss)) ≡ true
      → ok_from (not (s == slash)) (levels ss) ≡ true
  unfolding levels is_plain
  same-ok np nh ok =
      let (l, ls, bs) = levels-Begins ss h in
      ground (arith, bs.split, levels_ok-push s l ls, levels_ok-empty l ls)

-- Where the loop returns early, the rest matches.
unfoldable pub ends_early : List ℕ → List ℕ → Bool
ends_early ss ts = is_nil ts && (is_slash_hash ss || is_nil ss || is_char plus ss)

early-match :
    (q : Bool) (ss ts : List ℕ)
    → ends_early ss ts ≡ true
    → ok_from q (levels ss) ≡ true
    → match_from q (levels ss) (levels ts) ≡ true
unfolding ends_early levels levels_match is_plain
early-match q ss (t ∷ ts) e ok = cc
early-match q [] [] e ok = ground arith
early-match q (s ∷ []) [] e ok = ground arith
early-match q (s ∷ u ∷ []) [] e ok = ground arith
early-match q (s ∷ u ∷ v ∷ ss) [] e ok = ground arith

match_loop-same :
    (s : ℕ) (ss ts : List ℕ)
    → match_loop (s ∷ ss) (s ∷ ts) ≡ (if ends_early ss ts then some true else match_loop ss ts)
unfolding match_loop ends_early
match_loop-same s ss ts = ground arith

pub Claim-same :
    (mid : Bool) (s : ℕ) (ss ts : List ℕ)
    → IsText (s ∷ ss)
    → IsText (s ∷ ts)
    → is_plain (s ∷ ts) ≡ true
    → Claim (not (s == slash)) ss ts
    → Claim mid (s ∷ ss) (s ∷ ts)
unfolding is_plain no_hash
Claim-same mid s ss ts h k pl rest b ok np e w =
    let np' : (s == plus) ≡ false = ground arith in
    let nh' : (s == hash) ≡ false = ground arith in
    let ok' = same-ok mid s ss ts h.1 k.1 np' nh' ok in
    same-match mid s ss ts h.1 k.1 np' nh' ∙ elim (Bool-cases (ends_early ss ts)) [
      | inl early ↦
          early-match (not (s == slash)) ss ts early ok' ∙ ground (arith, match_loop-same s ss ts)
      | inr late ↦
          rest b ok' (unfold ends_early in ground arith) (ground (arith, match_loop-same s ss ts))
            (ground arith)
    ]

-- Two different characters: + skips a level, # takes all the rest, and others do not match.
module _ (mid : Bool) (s : ℕ) (ss : List ℕ) (t : ℕ) (ts : List ℕ) (h : IsText (s ∷ ss))
    (k : IsText (t ∷ ts)) (differ : (s == t) ≡ false) where
  pub plus-match :
      (s == plus) ≡ true
      → ok_from mid (levels (s ∷ ss)) ≡ true
      → (match_from mid (levels (s ∷ ss)) (levels (t ∷ ts))
          ≡ match_from true (levels ss) (levels (skip_level (t ∷ ts))))
        × (ok_from true (levels ss) ≡ true)
        × (is_char plus ss ≡ false)
  unfolding levels levels_match is_plain
  plus-match p ok =
      let (l, ls, bs) = levels-Begins ss h.1 in
      let (m, ms, bt) = levels-Begins (t ∷ ts) k in
      ground (
        arith,
        bs.split,
        bs.first,
        bt.split,
        skip_level-levels (t ∷ ts) m ms k bt.split,
        levels_ok-push s l ls,
      )

  pub hash-match :
      (s == hash) ≡ true
      → ok_from mid (levels (s ∷ ss)) ≡ true
      → (match_from mid (levels (s ∷ ss)) (levels (t ∷ ts)) ≡ true) × (is_nil ss ≡ true)
  unfolding levels levels_match is_plain
  hash-match p ok =
      let (l, ls, bs) = levels-Begins ss h.1 in
      let (m, ms, bt) = levels-Begins (t ∷ ts) k in
      ground (arith, bs.split, bs.first, bs.last, bt.split, levels_ok-push s l ls, h.1)

  pub other-match :
      (s == plus) ≡ false
      → (s == hash) ≡ false
      → match_from mid (levels (s ∷ ss)) (levels (t ∷ ts)) ≡ false
  unfolding levels levels_match
  other-match np nh =
      let (l, ls, bs) = levels-Begins ss h.1 in
      let (m, ms, bt) = levels-Begins ts k.1 in ground (arith, bs.split, bt.split, single l)
    where
      single : (l : List ℕ) → (is_char plus (s ∷ l) ≡ false) × (is_char hash (s ∷ l) ≡ false)
      single [] = (np, nh)
      single (c ∷ l) = (refl, refl)
