-- ===== src/Tree/Offers.antt =====
-- The retained messages that a subscription gets are those of elements that its filter matches.
use kocom.Prelude.{
  ℕ, ◌+◌, ◌≡◌, refl, Bool, true, false, not, ◌&&◌, ◌||◌, Option, none, some, List, [], ◌∷◌, ltb,
  arith, text_eq, text_eq_comm, if◌then◌else◌,
}
use kocom.Topic.{plus, hash}
use kocom.Topic.Levels.{levels_match}
use kocom.Tree.{Hier, null, hier, is_null}
use kocom.Tree.Search.{is_last}
use kocom.Tree.Walk.{is_char-text_eq}
use kocom.Tree.Retained.{process_retained, retain_search, starts_hash}

abbrev pub AllowsRetained : (ℕ → Type 0) → Option ℕ → Type 0
AllowsRetained allowed none = Unit
AllowsRetained allowed (some r) = allowed r

-- Each retained message at an element that is picked by its path is allowed.
unfoldable pub Offers : (List (List ℕ) → Bool) → (ℕ → Type 0) → Hier → Type 0
Offers pick allowed null = Unit
Offers pick allowed (hier t subs r ch next) =
    (pick (t ∷ []) ≡ true → AllowsRetained allowed r)
    × Offers (λ p. pick (t ∷ p)) allowed ch
    × Offers pick allowed next

Offers-fewer :
    (pick pick' : List (List ℕ) → Bool) (allowed : ℕ → Type 0) (f : Hier)
    → ((p : List (List ℕ)) → pick' p ≡ true → pick p ≡ true)
    → Offers pick allowed f
    → Offers pick' allowed f
unfolding Offers
Offers-fewer pick pick' allowed null h o = o
Offers-fewer pick pick' allowed (hier t subs r ch next) h (own, below, rest) = (
  λ e. own (h (t ∷ []) e),
  Offers-fewer (λ p. pick (t ∷ p)) (λ p. pick' (t ∷ p)) allowed ch (λ p. h (t ∷ p)) below,
  Offers-fewer pick pick' allowed next h rest,
)

-- A level that hits the first token leaves the others to the rest of the path.
match_hit :
    (t k : List ℕ) (ks p : List (List ℕ))
    → (text_eq t k || text_eq k (plus ∷ [])) ≡ true
    → levels_match ks p ≡ true
    → levels_match (k ∷ ks) (t ∷ p) ≡ true
unfolding levels_match
match_hit t k ks p h m =
    let star = is_char-text_eq plus k in let swap = text_eq_comm t k in ground arith

match_hash :
    (k : List ℕ) (ks p : List (List ℕ))
    → text_eq k (hash ∷ []) ≡ true
    → levels_match (k ∷ ks) p ≡ true
unfolding levels_match
match_hash k ks [] h = let e = is_char-text_eq hash k in ground arith
match_hash k ks (t ∷ p) h = let e = is_char-text_eq hash k in ground arith

match_parent :
    (ks : List (List ℕ)) → (is_last ks || starts_hash ks) ≡ true → levels_match ks [] ≡ true
unfolding levels_match
match_parent [] h = refl
match_parent (k ∷ ks) h = let e = is_char-text_eq hash k in ground arith

and_right : (a b : Bool) → (a && b) ≡ true → b ≡ true
and_right a b h = ground arith

or_left : (a b : Bool) → a ≡ true → (a || b) ≡ true
or_left a b h = ground arith

or_right : (a b : Bool) → b ≡ true → (a || b) ≡ true
or_right a b h = ground arith

own_hash :
    (deep a b c : Bool) → (deep || (a && b && c)) ≡ true → (deep ≡ true → b ≡ true) → b ≡ true
own_hash deep a b c h k = ground (arith, k)

module _ {S : Type 0} (process : ℕ → S → S) (Keeps : S → Type 0) (allowed : ℕ → Type 0)
    (keeps : (r : ℕ) (s : S) → allowed r → Keeps s → Keeps (process r s)) where
  one :
      (r : Option ℕ) (s : S)
      → AllowsRetained allowed r
      → Keeps s
      → Keeps (process_retained process r s)
  one none s a h = h
  one (some r) s a h = keeps r s a h

  choose :
      (test : Bool) (x y : S)
      → (test ≡ true → Keeps x)
      → (test ≡ false → Keeps y)
      → Keeps (if test then x else y)
  choose true x y h k = h refl
  choose false x y h k = k refl

  -- -1 is returned only for a # that is the last token.
  deep_hash :
      (tokens : List (List ℕ)) (level : ℕ) (f : Hier) (s : S)
      → (retain_search process tokens level f s).1 ≡ true
      → starts_hash tokens ≡ true
  unfolding retain_search
  deep_hash tokens level null s h = cc
  deep_hash [] level (hier t subs r ch next) s h = cc
  deep_hash (k ∷ ks) level (hier t subs r ch next) s h = ground arith

  -- Whatever the filter's tokens and the tree, the search keeps what processing an allowed retained
  -- message keeps, if at every element whose path the filter matches the retained message is
  -- allowed. So it processes no retained message of an element that the filter does not match.
  pub retain_search-Keeps :
      (tokens : List (List ℕ)) (level : ℕ) (f : Hier) (s : S)
      → Offers (levels_match tokens) allowed f
      → Keeps s
      → Keeps (retain_search process tokens level f s).0
  unfolding retain_search Offers
  retain_search-Keeps tokens level null s o h = h
  retain_search-Keeps [] level (hier t subs r ch next) s o h = h
  retain_search-Keeps (k ∷ ks) level (hier t subs r ch next) s (own, below, rest) h =
      let all = levels_match (k ∷ ks) in
      let under : (text_eq t k || text_eq k (plus ∷ [])) ≡ true
          → Keeps (retain_search process ks (level + 1) ch s).0 =
        λ hit.
          retain_search-Keeps ks (level + 1) ch s
            (Offers-fewer (λ p. all (t ∷ p)) (levels_match ks) allowed ch
              (λ p m. match_hit t k ks p hit m) below)
            h in
      let parent : (text_eq t k || text_eq k (plus ∷ [])) ≡ true
          → (is_last ks || starts_hash ks) ≡ true
          → AllowsRetained allowed r =
        λ hit last. own (match_hit t k ks [] hit (match_parent ks last)) in
      retain_search-Keeps (k ∷ ks) level next _ rest (
        choose (text_eq k (hash ∷ []) && is_last ks) _ _
          (λ x.
            let star : text_eq k (hash ∷ []) ≡ true = ground (arith, x) in
            retain_search-Keeps (k ∷ ks) (level + 1) ch _
              (Offers-fewer (λ p. all (t ∷ p)) all allowed ch (λ p m. match_hash k ks (t ∷ p) star)
                below)
              (one r s (own (match_hash k ks (t ∷ []) star)) h))
          (λ x.
            choose (not (text_eq t (plus ∷ [])) && (text_eq t k || text_eq k (plus ∷ []))) _ _
              (λ y.
                let hit : (text_eq t k || text_eq k (plus ∷ [])) ≡ true = and_right _ _ y in
                choose (is_last ks) _ _ (λ z. one r s (parent hit (or_left _ _ z)) h)
                  (λ z.
                    choose
                      ((retain_search process ks (level + 1) ch s).1
                        || (is_null next && starts_hash ks && ltb 0 level))
                      _ _
                      (λ v.
                        one r _
                          (parent hit
                            (or_right _ _ (own_hash _ _ _ _ v (deep_hash ks (level + 1) ch s))))
                          (under hit))
                      (λ v. under hit)))
              (λ y. h)))
