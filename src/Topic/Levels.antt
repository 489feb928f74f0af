-- ===== src/Topic/Levels.antt =====
-- What topics and filters mean: their levels, which filters are well formed, and which topics a
-- filter matches. This is written down independently of the program's loops.
use kocom.Prelude.{
  ℕ, ◌<◌, ◌≡◌, refl, arith, inl, inr, Bool-cases, Bool, true, false, not, ◌&&◌, ◌||◌, List, [], ◌∷◌,
  All, ◌==◌, text_eq, if◌then◌else◌,
}
use kocom.Topic.{slash, plus, hash, is_char, char0, is_nil, inside}

abbrev pub is_nil_levels : List (List ℕ) → Bool
is_nil_levels [] = true
is_nil_levels (l ∷ ls) = false

-- A text has one level more than it has slashes.
abbrev pub push : ℕ → List (List ℕ) → List (List ℕ)
push c [] = (c ∷ []) ∷ []
push c (l ∷ ls) = (c ∷ l) ∷ ls

unfoldable pub levels : List ℕ → List (List ℕ)
levels [] = [] ∷ []
levels (c ∷ str) = let rest = levels str in if c == slash then [] ∷ rest else push c rest

-- No character of the text is a wildcard.
unfoldable pub is_plain : List ℕ → Bool
is_plain [] = true
is_plain (c ∷ str) = not (c == plus) && not (c == hash) && is_plain str

-- Wildcards stand alone in their level, and # only in the last one.
unfoldable pub levels_ok : List (List ℕ) → Bool
levels_ok [] = true
levels_ok (l ∷ []) = is_plain l || is_char plus l || is_char hash l
levels_ok (l ∷ m ∷ ls) = (is_plain l || is_char plus l) && levels_ok (m ∷ ls)

-- + stands for any one level, # for the rest of the levels, none included.
unfoldable pub levels_match : List (List ℕ) → List (List ℕ) → Bool
levels_match [] [] = true
levels_match [] (t ∷ ts) = false
levels_match (l ∷ ls) [] = is_char hash l
levels_match (l ∷ ls) (t ∷ ts) =
    is_char hash l || ((is_char plus l || text_eq l t) && levels_match ls ts)

-- No byte of a C string is 0.
abbrev pub IsText : List ℕ → Type 0
IsText str = All (λ c. 0 < c) str

-- There is a first level; it is empty if the text ends or has a slash there.
pub record Begins (str : List ℕ) (l : List ℕ) (ls : List (List ℕ)) : Type 0 where
  pub split : levels str ≡ l ∷ ls
  pub first : inside (char0 str) ≡ not (is_nil l)
  pub last : (char0 str == 0) ≡ (is_nil l && is_nil_levels ls)

pub levels-Begins :
    (str : List ℕ) → IsText str → (l : List ℕ) × (ls : List (List ℕ)) × Begins str l ls
unfolding levels
levels-Begins [] h = ([], [], record { split = refl; first = refl; last = refl })
levels-Begins (c ∷ str) h =
    let (l, ls, b) = levels-Begins str h.1 in
    elim (Bool-cases (c == slash)) [
      | inl s ↦ (
        [],
        l ∷ ls,
        record { split = rw (s, b.split); first = ground arith; last = ground arith },
      )
      | inr n ↦
          (c ∷ l, ls, record { split = rw (n, b.split); first = ground arith; last = ground arith })
    ]

-- A level that is not empty, by its first character.
pub levels_ok-push :
    (c : ℕ) (l : List ℕ) (ls : List (List ℕ))
    → levels_ok ((c ∷ l) ∷ ls) ≡ (
        if c == plus
        then is_nil l && levels_ok ls
        else if c == hash
        then is_nil l && is_nil_levels ls
        else is_plain l && levels_ok ls)
unfolding levels_ok is_plain
levels_ok-push c [] [] = ground arith
levels_ok-push c [] (m ∷ ls) = ground arith
levels_ok-push c (d ∷ l) [] = ground arith
levels_ok-push c (d ∷ l) (m ∷ ls) = ground arith

pub levels_ok-empty :
    (l : List ℕ) (ls : List (List ℕ)) → levels_ok ([] ∷ l ∷ ls) ≡ levels_ok (l ∷ ls)
unfolding levels_ok is_plain
levels_ok-empty l ls = refl

pub levels_ok-end : (levels_ok [] ≡ true) × (levels_ok ([] ∷ []) ≡ true)
unfolding levels_ok is_plain
levels_ok-end = (refl, refl)
