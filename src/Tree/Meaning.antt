-- ===== src/Tree/Meaning.antt =====
-- The tokens of a filter match those of a topic just if the filter matches the topic.
use kocom.Prelude.{
  ℕ, ◌≡◌, refl, sym, ◌∙◌, Bool, true, false, ◌&&◌, List, [], ◌∷◌, arith, ◌==◌, text_eq, inl, inr,
  Bool-cases,
}
use kocom.Topic.{dollar, dollar_differs}
use kocom.Topic.Levels.{levels, levels_match}
use kocom.Topic.Matching.{filter_matches}
use kocom.Tree.{tokenise, starts_with}
use kocom.Tree.Change.{first_token}
use kocom.Tree.Tokens.{tokenise-levels, levels-dollar}
use kocom.Tree.Tidy.{dollar_level}

-- That two first levels that start with $ are the same is part of the match.
same_first :
    (c d : ℕ) (l m : List ℕ) (ls ms : List (List ℕ))
    → (c == dollar) ≡ true
    → (text_eq (c ∷ l) (d ∷ m) && levels_match ((c ∷ l) ∷ ls) ((d ∷ m) ∷ ms))
      ≡ levels_match ((c ∷ l) ∷ ls) ((d ∷ m) ∷ ms)
unfolding levels_match
same_first c d l m ls ms h = let (nh, np) = dollar_level c l h in ground arith

agree :
    (sub topic : List ℕ)
    → starts_with dollar sub ≡ starts_with dollar topic
    → dollar_differs sub topic ≡ false
agree [] topic e = refl
agree (c ∷ sub) [] e = refl
agree (c ∷ sub) (d ∷ topic) e = ground arith

unfoldable pub path_matches : List ℕ → List ℕ → Bool
unfolding tokenise levels_match
path_matches sub topic =
    text_eq (first_token (tokenise sub)) (first_token (tokenise topic))
    && levels_match (tokenise sub) (tokenise topic)

plain_both :
    (sub topic : List ℕ)
    → starts_with dollar sub ≡ false
    → starts_with dollar topic ≡ false
    → path_matches sub topic ≡ filter_matches sub topic
unfolding path_matches levels_match
plain_both sub topic n m =
    rw (tokenise-levels sub, n, tokenise-levels topic, m, agree sub topic (n ∙ sym m)) refl

dollar_both :
    (c d : ℕ) (sub topic : List ℕ)
    → (c == dollar) ≡ true
    → (d == dollar) ≡ true
    → path_matches (c ∷ sub) (d ∷ topic) ≡ filter_matches (c ∷ sub) (d ∷ topic)
unfolding path_matches
dollar_both c d sub topic n m =
    let (l, ls, e) = levels-dollar c sub n in
    let (k, ks, f) = levels-dollar d topic m in
    rw (tokenise-levels (c ∷ sub), n, tokenise-levels (d ∷ topic), m, e, f)
      (same_first c d l k ls ks n)

dollar_filter :
    (c : ℕ) (sub topic : List ℕ)
    → (c == dollar) ≡ true
    → starts_with dollar topic ≡ false
    → path_matches (c ∷ sub) topic ≡ filter_matches (c ∷ sub) topic
unfolding path_matches
dollar_filter c sub [] n m =
    let (l, ls, e) = levels-dollar c sub n in
    let (nh, np) = dollar_level c l n in
    rw (tokenise-levels (c ∷ sub), n, tokenise-levels [], e)
      (unfold levels levels_match in ground arith)
dollar_filter c sub (d ∷ topic) n m =
    let (l, ls, e) = levels-dollar c sub n in
    rw (tokenise-levels (c ∷ sub), n, tokenise-levels (d ∷ topic), m, e) refl

dollar_topic :
    (d : ℕ) (sub topic : List ℕ)
    → starts_with dollar sub ≡ false
    → (d == dollar) ≡ true
    → path_matches sub (d ∷ topic) ≡ filter_matches sub (d ∷ topic)
unfolding path_matches
dollar_topic d [] topic n m =
    let (l, ls, e) = levels-dollar d topic m in
    rw (tokenise-levels [], tokenise-levels (d ∷ topic), m, e)
      (unfold levels levels_match in ground arith)
dollar_topic d (c ∷ sub) topic n m =
    let (l, ls, e) = levels-dollar d topic m in
    rw (tokenise-levels (c ∷ sub), n, tokenise-levels (d ∷ topic), m, e) refl

pub path_match : (sub topic : List ℕ) → path_matches sub topic ≡ filter_matches sub topic
path_match [] [] = plain_both [] [] refl refl
path_match (c ∷ sub) [] = elim (Bool-cases (c == dollar)) [
  | inl n ↦ dollar_filter c sub [] n refl
  | inr n ↦ plain_both (c ∷ sub) [] n refl
]
path_match [] (d ∷ topic) = elim (Bool-cases (d == dollar)) [
  | inl m ↦ dollar_topic d [] topic refl m
  | inr m ↦ plain_both [] (d ∷ topic) refl m
]
path_match (c ∷ sub) (d ∷ topic) = elim (Bool-cases (c == dollar)) [
  | inl n ↦ elim (Bool-cases (d == dollar)) [
    | inl m ↦ dollar_both c d sub topic n m
    | inr m ↦ dollar_filter c sub (d ∷ topic) n m
  ]
  | inr n ↦ elim (Bool-cases (d == dollar)) [
    | inl m ↦ dollar_topic d (c ∷ sub) topic n m
    | inr m ↦ plain_both (c ∷ sub) (d ∷ topic) n m
  ]
]
