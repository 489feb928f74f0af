-- ===== src/Tree/Search.antt =====
-- _sub_search of src/subs.c, over what is done with each element that it finds (_subs_process).
use kocom.Prelude.{
  ℕ, Bool, true, false, not, ◌&&◌, ◌||◌, Option, List, [], ◌∷◌, text_eq, if◌then◌else◌,
}
use kocom.Topic.{plus, hash}
use kocom.Tree.{Leaf, Hier, null, hier, is_null}

-- What is done with an element gets set_retain, the leaves and the retained message, and gives what
-- is then retained; `S` is the state of everything outside the tree.
abbrev pub Process : Type 0 → Type 0
Process S = Bool → List Leaf → Option ℕ → S → Option ℕ × S

abbrev pub is_last : List (List ℕ) → Bool
is_last [] = true
is_last (t ∷ ts) = false

module _ {S : Type 0} (process : Process S) where
  -- At an element with the topic `t`: the element's children, its retained message and the state.
  unfoldable pub sub_search : Bool → List (List ℕ) → Hier → S → Hier × S
  sub_search set_retain tokens null s = (null, s)
  sub_search set_retain [] (hier t subs r ch next) s =
      let (r', s') : Option ℕ × S =
        if text_eq t (hash ∷ []) && is_null ch then process false subs r s else (r, s) in
      let (next', s'') = sub_search set_retain [] next s' in (hier t subs r' ch next', s'')
  sub_search set_retain (k ∷ ks) (hier t subs r ch next) s =
      let sr = set_retain && not (text_eq t (plus ∷ [])) in
      let deep = sub_search sr ks ch s in
      let hit = text_eq t k || text_eq t (plus ∷ []) in
      let ch' : Hier = if hit then deep.0 else ch in
      let (r', s') : Option ℕ × S =
        if hit
        then (if is_last ks then process sr subs r deep.1 else (r, deep.1))
        else if text_eq t (hash ∷ []) && is_null ch
        then process false subs r s
        else (r, s) in
      let (next', s'') = sub_search set_retain (k ∷ ks) next s' in (hier t subs r' ch' next', s'')

  -- What every processing keeps, the search keeps.
  module _ {ℓ} (Keeps : S → Type ℓ)
      (keeps : (sr : Bool) (subs : List Leaf) (r : Option ℕ) (s : S)
        → Keeps s
        → Keeps (process sr subs r s).1) where
    here :
        (test sr : Bool) (subs : List Leaf) (r : Option ℕ) (s : S)
        → Keeps s
        → Keeps (if test then process sr subs r s else (r, s)).1
    here true sr subs r s h = keeps sr subs r s h
    here false sr subs r s h = h

    choice :
        (test : Bool) (x y : Option ℕ × S) → Keeps x.1 → Keeps y.1 → Keeps (if test then x else y).1
    choice true x y h k = h
    choice false x y h k = k

    pub sub_search-Keeps :
        (sr : Bool) (tokens : List (List ℕ)) (f : Hier) (s : S)
        → Keeps s
        → Keeps (sub_search sr tokens f s).1
    unfolding sub_search
    sub_search-Keeps sr tokens null s h = h
    sub_search-Keeps sr [] (hier t subs r ch next) s h =
        sub_search-Keeps sr [] next _ (here (text_eq t (hash ∷ []) && is_null ch) false subs r s h)
    sub_search-Keeps sr (k ∷ ks) (hier t subs r ch next) s h =
        let star = sr && not (text_eq t (plus ∷ [])) in
        let deep = sub_search-Keeps star ks ch s h in
        sub_search-Keeps sr (k ∷ ks) next _ (
          choice (text_eq t k || text_eq t (plus ∷ [])) _ _ (here (is_last ks) star subs r _ deep)
            (here (text_eq t (hash ∷ []) && is_null ch) false subs r s h))
