-- ===== src/Tree/Tokens.antt =====
-- The tokens of a topic against its levels.
use kocom.Prelude.{
  ℕ, ◌≡◌, refl, sym, ap, ◌∙◌, true, false, List, [], ◌∷◌, ◌++◌, append_assoc, append-nil, arith,
  ◌==◌, text_eq, text_eq_self, text_eq→eq, if◌then◌else◌, inl, inr, Bool-cases, ==_iff, All,
}
use kocom.Topic.{slash, dollar}
use kocom.Topic.Levels.{levels, push, is_plain}
use kocom.Tree.{split_loop, tokenise, starts_with, after_slash}
use kocom.Tree.Change.{path_eq}

-- A token that has been begun goes on in the first level.
begun : List ℕ → List (List ℕ) → List (List ℕ)
begun token [] = token ∷ []
begun token (l ∷ ls) = (token ++ l) ∷ ls

begun-push :
    (token : List ℕ) (c : ℕ) (ls : List (List ℕ))
    → begun token (push c ls) ≡ begun (token ++ (c ∷ [])) ls
unfolding begun
begun-push token c [] = refl
begun-push token c (l ∷ ls) = rw (append_assoc token (c ∷ []) l) refl

pub levels-cons : (str : List ℕ) → (l : List ℕ) × (ls : List (List ℕ)) × (levels str ≡ l ∷ ls)
unfolding levels
levels-cons [] = ([], [], refl)
levels-cons (c ∷ str) =
    let (l, ls, e) = levels-cons str in
    elim (Bool-cases (c == slash)) [
      | inl s ↦ ([], l ∷ ls, rw (s, e) refl)
      | inr n ↦ (c ∷ l, ls, rw (n, e) refl)
    ]

begun-nil : (str : List ℕ) → begun [] (levels str) ≡ levels str
unfolding begun
begun-nil str = let (l, ls, e) = levels-cons str in rw e refl

split_loop-levels : (token str : List ℕ) → split_loop token str ≡ begun token (levels str)
unfolding split_loop levels begun
split_loop-levels token [] = rw (append-nil token) refl
split_loop-levels token (c ∷ str) = elim (Bool-cases (c == slash)) [
  | inl s ↦
      rw (split_loop, s, split_loop-levels [] str, append-nil token)
        (ap (λ ls. token ∷ ls) (begun-nil str))
  | inr n ↦
      rw (split_loop, n)
        (split_loop-levels (token ++ (c ∷ [])) str ∙ sym (begun-push token c (levels str)))
]

after_slash-levels : (str : List ℕ) → after_slash str ≡ levels str
unfolding split_loop levels after_slash
after_slash-levels [] = refl
after_slash-levels (c ∷ str) = elim (Bool-cases (c == slash)) [
  | inl s ↦ rw s (ap (λ ls. [] ∷ ls) (split_loop-levels [] str ∙ begun-nil str))
  | inr n ↦ rw n (split_loop-levels [] (c ∷ str) ∙ begun-nil (c ∷ str) ∙ rw n refl)
]

-- The tokens of a topic are its levels, behind an empty one unless the topic starts with $.
pub tokenise-levels :
    (str : List ℕ) → tokenise str ≡ (if starts_with dollar str then levels str else [] ∷ levels str)
unfolding tokenise
tokenise-levels str = rw (after_slash-levels str) refl

join : List (List ℕ) → List ℕ
join [] = []
join (l ∷ []) = l
join (l ∷ m ∷ ls) = l ++ (slash ∷ join (m ∷ ls))

join-longer : (c : ℕ) (l : List ℕ) (ls : List (List ℕ)) → join ((c ∷ l) ∷ ls) ≡ c ∷ join (l ∷ ls)
unfolding join
join-longer c l [] = refl
join-longer c l (m ∷ ls) = refl

join-levels : (str : List ℕ) → join (levels str) ≡ str
unfolding join levels
join-levels [] = refl
join-levels (c ∷ str) =
    let (l, ls, e) = levels-cons str in
    elim (Bool-cases (c == slash)) [
      | inl s ↦ rw s (
          ap join (ap (λ k. [] ∷ k) e)
          ∙ ap (λ k. slash ∷ k) (ap join (sym e) ∙ join-levels str)
          ∙ ap (λ d. d ∷ str) (sym ((==_iff c slash).0 s)))
      | inr n ↦ rw (n, e) (join-longer c l ls ∙ ap (λ k. c ∷ k) (ap join (sym e) ∙ join-levels str))
    ]

-- The first level of a topic that starts with $ starts with it too.
pub levels-dollar :
    (c : ℕ) (str : List ℕ)
    → (c == dollar) ≡ true
    → (l : List ℕ) × (ls : List (List ℕ)) × (levels (c ∷ str) ≡ (c ∷ l) ∷ ls)
unfolding levels
levels-dollar c str d =
    let (l, ls, e) = levels-cons str in
    let other : (c == slash) ≡ false = ground arith in (l, ls, rw (other, e) refl)

-- The topic can be read off its tokens.
untokenise : List (List ℕ) → List ℕ
untokenise [] = []
untokenise ([] ∷ ls) = join ls
untokenise ((c ∷ l) ∷ ls) = join ((c ∷ l) ∷ ls)

untokenise-tokenise : (str : List ℕ) → untokenise (tokenise str) ≡ str
unfolding untokenise
untokenise-tokenise [] = rw (tokenise-levels []) (join-levels [])
untokenise-tokenise (c ∷ str) = elim (Bool-cases (c == dollar)) [
  | inl d ↦
      let (l, ls, first) = levels-dollar c str d in
      rw (tokenise-levels (c ∷ str), d) rw first (ap join (sym first) ∙ join-levels (c ∷ str))
  | inr n ↦ rw (tokenise-levels (c ∷ str), n) (join-levels (c ∷ str))
]

pub path_eq→eq : (p q : List (List ℕ)) → path_eq p q ≡ true → p ≡ q
path_eq→eq [] [] h = refl
path_eq→eq [] (u ∷ us) h = cc
path_eq→eq (t ∷ ts) [] h = cc
path_eq→eq (t ∷ ts) (u ∷ us) h =
    let front : t ≡ u = text_eq→eq t u (ground arith) in
    let back : ts ≡ us = path_eq→eq ts us (ground arith) in cc

-- Different filters have different tokens.
pub tokenise-injective :
    (f g : List ℕ) → text_eq f g ≡ false → path_eq (tokenise f) (tokenise g) ≡ false
tokenise-injective f g d = elim (Bool-cases (path_eq (tokenise f) (tokenise g))) [
  | inr n ↦ n
  | inl same ↦
      let e : f ≡ g =
        sym (untokenise-tokenise f)
        ∙ ap untokenise (path_eq→eq (tokenise f) (tokenise g) same)
        ∙ untokenise-tokenise g in
      let self = text_eq_self g in cc
]

pub tokenise-cons : (str : List ℕ) → (t : List ℕ) × (ts : List (List ℕ)) × (tokenise str ≡ t ∷ ts)
tokenise-cons str =
    let (l, ls, e) = levels-cons str in
    elim (Bool-cases (starts_with dollar str)) [
      | inl d ↦ (l, ls, rw (tokenise-levels str, d) e)
      | inr n ↦ ([], l ∷ ls, rw (tokenise-levels str, n, e) refl)
    ]

-- The tokens of a topic without wildcards have none.
AllPlain : List (List ℕ) → Type 0
AllPlain ls = All (λ l. is_plain l ≡ true) ls

push-AllPlain :
    (c : ℕ) (ls : List (List ℕ)) → is_plain (c ∷ []) ≡ true → AllPlain ls → AllPlain (push c ls)
unfolding is_plain AllPlain
push-AllPlain c [] p h = (p, tt)
push-AllPlain c (l ∷ ls) p h = (ground (arith, h.0), h.1)

levels-AllPlain : (str : List ℕ) → is_plain str ≡ true → AllPlain (levels str)
unfolding levels is_plain AllPlain
levels-AllPlain [] h = (refl, tt)
levels-AllPlain (c ∷ str) h = elim (Bool-cases (c == slash)) [
  | inl s ↦ rw s (refl, levels-AllPlain str (ground arith))
  | inr n ↦ rw n (push-AllPlain c (levels str) (ground arith) (levels-AllPlain str (ground arith)))
]

pub tokenise-AllPlain :
    (str : List ℕ) → is_plain str ≡ true → All (λ t. is_plain t ≡ true) (tokenise str)
unfolding AllPlain is_plain
tokenise-AllPlain str h = elim (Bool-cases (starts_with dollar str)) [
  | inl d ↦ rw (tokenise-levels str, d) (levels-AllPlain str h)
  | inr n ↦ rw (tokenise-levels str, n) (refl, levels-AllPlain str h)
]
