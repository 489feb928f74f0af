-- ===== src/Tree/Walk.antt =====
-- A meaning of _sub_search: every element of the tree, children first, in order, and which of them
-- are processed is read off the path.
use kocom.Prelude.{
  ℕ, ◌≡◌, refl, ap, ◌∙◌, Bool, true, false, not, ◌&&◌, ◌||◌, Option, none, some, List, [], ◌∷◌, All,
  arith, text_eq, text_eq→eq, if◌then◌else◌, inl, inr, Bool-cases,
}
use mathlib.Core.Path.{fun_ext}
use kocom.Topic.{plus, hash, is_char}
use kocom.Topic.Levels.{levels_match, is_plain}
use kocom.Tree.{Leaf, Hier, null, hier, is_null}
use kocom.Tree.Search.{Process, sub_search, is_last}

-- A path without wildcards.
unfoldable pub is_fixed : List (List ℕ) → Bool
is_fixed [] = true
is_fixed (t ∷ p) = not (is_char plus t) && not (is_char hash t) && is_fixed p

-- The elements whose path, as a filter, matches the tokens; set_retain holds only without wildcards.
unfoldable pub chosen : Bool → List (List ℕ) → List (List ℕ) → Option Bool
unfolding levels_match is_fixed
chosen set_retain tokens p = if levels_match p tokens then some (set_retain && is_fixed p) else none

-- Nothing is below a #.
unfoldable pub IsTidy : Hier → Type 0
IsTidy null = Unit
IsTidy (hier t subs r ch next) =
    ((not (is_char hash t) || is_null ch) ≡ true) × IsTidy ch × IsTidy next

pub is_char-text_eq : (c : ℕ) (t : List ℕ) → text_eq t (c ∷ []) ≡ is_char c t
is_char-text_eq c [] = refl
is_char-text_eq c (d ∷ []) = ground arith
is_char-text_eq c (d ∷ e ∷ t) = ground arith

pub plain-hash : (k : List ℕ) → is_plain k ≡ true → is_char hash k ≡ false
unfolding is_plain
plain-hash [] h = refl
plain-hash (c ∷ []) h = ground arith
plain-hash (c ∷ d ∷ k) h = refl

pub plus-hash : (t : List ℕ) → is_char plus t ≡ true → is_char hash t ≡ false
plus-hash [] h = refl
plus-hash (c ∷ []) h = ground arith
plus-hash (c ∷ d ∷ t) h = refl

-- What meets a token without wildcards is no #.
plain_hit :
    (t k : List ℕ)
    → is_plain k ≡ true
    → (text_eq t k || is_char plus t) ≡ true
    → is_char hash t ≡ false
plain_hit t k pl h = elim (Bool-cases (text_eq t k)) [
  | inl same ↦ rw (text_eq→eq t k same) (plain-hash k pl)
  | inr differ ↦ plus-hash t (ground arith)
]

-- An element that a token does not meet.
module _ (k : List ℕ) (ks : List (List ℕ)) (t : List ℕ)
    (n : (text_eq t k || is_char plus t) ≡ false) where
  match-miss :
      is_char hash t ≡ false → (path : List (List ℕ)) → levels_match (t ∷ path) (k ∷ ks) ≡ false
  unfolding levels_match
  match-miss m path = ground arith

  chosen-miss :
      (sr : Bool) → chosen sr (k ∷ ks) (t ∷ []) ≡ (if is_char hash t then some false else none)
  unfolding chosen levels_match is_fixed
  chosen-miss sr = ground arith

module _ {S : Type 0} (process : Process S) where
  abbrev pub pass : Option Bool → List Leaf → Option ℕ → S → Option ℕ × S
  pass none subs r s = (r, s)
  pass (some set_retain) subs r s = process set_retain subs r s

  unfoldable pub walk : (List (List ℕ) → Option Bool) → Hier → S → Hier × S
  walk pick null s = (null, s)
  walk pick (hier t subs r ch next) s =
      let (ch', s1) = walk (λ p. pick (t ∷ p)) ch s in
      let (r', s2) = pass (pick (t ∷ [])) subs r s1 in
      let (next', s3) = walk pick next s2 in (hier t subs r' ch' next', s3)

  pub walk-none : (f : Hier) (s : S) → walk (λ path. none) f s ≡ (f, s)
  unfolding walk
  walk-none null s = refl
  walk-none (hier t subs r ch next) s =
      ap
        (λ w.
          (hier t subs r w.0 (walk (λ path. none) next w.1).0, (walk (λ path. none) next w.1).1))
        (walk-none ch s)
      ∙ ap (λ w. (hier t subs r ch w.0, w.1)) (walk-none next s)

  pub walk-alike :
      (f : Hier) (p q : List (List ℕ) → Option Bool) (s : S)
      → ((path : List (List ℕ)) → p path ≡ q path)
      → walk p f s ≡ walk q f s
  walk-alike f p q s h = ap (λ pick. walk pick f s) (fun_ext h)

  -- The children of an element that matches a token, and of one that does not.
  module _ (sr : Bool) (t : List ℕ) (plain_t : is_char hash t ≡ false) (ch : Hier) (s : S) where
    below-hit :
        (k : List ℕ) (ks : List (List ℕ))
        → (text_eq t k || is_char plus t) ≡ true
        → walk (λ p. chosen sr (k ∷ ks) (t ∷ p)) ch s
          ≡ walk (chosen (sr && not (is_char plus t)) ks) ch s
    unfolding chosen levels_match is_fixed
    below-hit k ks hit = walk-alike ch _ _ s (λ path. ground arith)

    below-miss :
        (tokens : List (List ℕ))
        → (first : (path : List (List ℕ)) → levels_match (t ∷ path) tokens ≡ false)
        → walk (λ p. chosen sr tokens (t ∷ p)) ch s ≡ (ch, s)
    unfolding chosen
    below-miss tokens first =
        walk-alike ch _ (λ path. none) s (λ path. rw (first path) refl) ∙ walk-none ch s

  -- An element and the elements behind it, from what comes of its children.
  unfoldable pub finish : (S → Hier × S) → List ℕ → List Leaf → Hier × (Option ℕ × S) → Hier × S
  finish go t subs x = (hier t subs x.1.0 x.0 (go x.1.1).0, (go x.1.1).1)

  pub finish-alike :
      (go go' : S → Hier × S) (t : List ℕ) (subs : List Leaf) (x y : Hier × (Option ℕ × S))
      → ((s : S) → go s ≡ go' s)
      → x ≡ y
      → finish go t subs x ≡ finish go' t subs y
  finish-alike go go' t subs x y h e =
      ap (λ g. finish g t subs x) (fun_ext h) ∙ ap (finish go' t subs) e

  unfoldable pub picked : Option Bool → List Leaf → Option ℕ → Hier × S → Hier × (Option ℕ × S)
  picked o subs r w = (w.0, pass o subs r w.1)

  module _ (sr : Bool) (t : List ℕ) (subs : List Leaf) (r : Option ℕ) (s : S) where
    miss :
        (tokens : List (List ℕ)) (ch : Hier)
        → (not (is_char hash t) || is_null ch) ≡ true
        → chosen sr tokens (t ∷ []) ≡ (if is_char hash t then some false else none)
        → (is_char hash t ≡ false → (path : List (List ℕ)) → levels_match (t ∷ path) tokens ≡ false)
        → let found : Option ℕ × S =
            if text_eq t (hash ∷ []) && is_null ch then process false subs r s else (r, s) in
          (ch, found)
          ≡ picked (chosen sr tokens (t ∷ [])) subs r (walk (λ p. chosen sr tokens (t ∷ p)) ch s)
    unfolding walk picked
    miss tokens ch alone c first = elim (Bool-cases (is_char hash t)) [
      | inl x ↦ rw (c, is_char-text_eq hash t, x) (end ch (ground arith))
      | inr n ↦ rw (c, is_char-text_eq hash t, n, below-miss sr t n ch s tokens (first n)) refl
    ]
      where
        end :
            (f : Hier)
            → is_null f ≡ true
            → let found : Option ℕ × S = if is_null f then process false subs r s else (r, s) in
              (f, found) ≡ picked (some false) subs r (walk (λ p. chosen sr tokens (t ∷ p)) f s)
        end null h = refl
        end (hier u v w y z) h = cc

    hit :
        (k : List ℕ) (ks : List (List ℕ)) (ch : Hier) (deep : Hier × S)
        → is_char hash t ≡ false
        → (text_eq t k || is_char plus t) ≡ true
        → deep ≡ walk (chosen (sr && not (is_char plus t)) ks) ch s
        → let found : Option ℕ × S =
            if is_last ks
            then process (sr && not (is_char plus t)) subs r deep.1
            else (r, deep.1) in
          (deep.0, found)
          ≡ picked
              (chosen sr (k ∷ ks) (t ∷ []))
              subs
              r
              (walk (λ p. chosen sr (k ∷ ks) (t ∷ p)) ch s)
    unfolding picked
    hit k [] ch deep n h e =
        let c : chosen sr (k ∷ []) (t ∷ []) ≡ some (sr && not (is_char plus t)) =
          unfold chosen levels_match is_fixed in ground arith in
        rw (below-hit sr t n ch s k [] h, c, e) refl
    hit k (m ∷ ks) ch deep n h e =
        let c : chosen sr (k ∷ m ∷ ks) (t ∷ []) ≡ none =
          unfold chosen levels_match is_fixed in ground arith in
        rw (below-hit sr t n ch s k (m ∷ ks) h, c, e) refl

  -- For a tree in which nothing is below a #, and tokens without wildcards, the search is the walk.
  pub search-walk :
      (set_retain : Bool) (tokens : List (List ℕ)) (f : Hier) (s : S)
      → IsTidy f
      → All (λ t. is_plain t ≡ true) tokens
      → sub_search process set_retain tokens f s ≡ walk (chosen set_retain tokens) f s
  unfolding walk sub_search IsTidy finish picked
  search-walk sr tokens null s tidy pl = refl
  search-walk sr [] (hier t subs r ch next) s (alone, below, rest) pl =
      finish-alike _ _ t subs _ _ (λ z. search-walk sr [] next z rest pl)
        (miss sr t subs r s [] ch alone (unfold levels_match chosen is_fixed in ground arith)
          (λ n path. unfold levels_match in n))
  search-walk sr (k ∷ ks) (hier t subs r ch next) s (alone, below, rest) pl =
      let star : text_eq t (plus ∷ []) ≡ is_char plus t = is_char-text_eq plus t in
      elim (Bool-cases (text_eq t k || is_char plus t)) [
        | inl h ↦
            rw (star, h)
              (finish-alike _ _ t subs _ _ (λ z. search-walk sr (k ∷ ks) next z rest pl)
                (hit sr t subs r s k ks ch _ (plain_hit t k pl.0 h) h
                  (search-walk (sr && not (is_char plus t)) ks ch s below pl.1)))
        | inr n ↦
            rw (star, n)
              (finish-alike _ _ t subs _ _ (λ z. search-walk sr (k ∷ ks) next z rest pl)
                (miss sr t subs r s (k ∷ ks) ch alone (chosen-miss k ks t n sr)
                  (match-miss k ks t n)))
      ]
