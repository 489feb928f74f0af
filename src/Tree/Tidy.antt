-- ===== src/Tree/Tidy.antt =====
-- Subscribing and unsubscribing keep the tree tidy: nothing is put below a #.
use kocom.Prelude.{
  ℕ, ◌≡◌, refl, Bool, true, false, not, ◌&&◌, ◌||◌, Option, some, List, [], ◌∷◌, ◌++◌, arith, ◌==◌,
  text_eq, text_eq→eq, inl, inr, Bool-cases, Option-cases, All,
}
use mathlib.Core.Path.{subst}
use mathlib.Core.Option.{some-injective}
use kocom.Topic.{plus, hash, dollar, is_char}
use kocom.Topic.Levels.{levels, levels_ok, is_plain}
use kocom.Tree.{
  Hier, null, hier, Node, Subscriber, find_child, set_child, append_child, unlink_child, empty_node,
  is_unused, is_null, tokenise, starts_with,
}
use kocom.Tree.Change.{
  sub_add, add_below, mqtt3_sub_add, sub_remove, remove_below, mqtt3_sub_remove, first_token,
}
use kocom.Tree.Tokens.{tokenise-levels, levels-dollar}
use kocom.Tree.Walk.{IsTidy, plain-hash, plus-hash}

-- A # is the last token.
unfoldable pub hash_last : List (List ℕ) → Bool
hash_last [] = true
hash_last (t ∷ []) = true
hash_last (t ∷ u ∷ ts) = not (is_char hash t) && hash_last (u ∷ ts)

levels_ok-hash_last : (ls : List (List ℕ)) → levels_ok ls ≡ true → hash_last ls ≡ true
unfolding levels_ok hash_last
levels_ok-hash_last [] h = refl
levels_ok-hash_last (l ∷ []) h = refl
levels_ok-hash_last (l ∷ m ∷ ls) h =
    ground (arith, plain-hash l, plus-hash l, levels_ok-hash_last (m ∷ ls))

pub plain-hash_last : (ls : List (List ℕ)) → All (λ l. is_plain l ≡ true) ls → hash_last ls ≡ true
unfolding hash_last
plain-hash_last [] h = refl
plain-hash_last (l ∷ []) h = refl
plain-hash_last (l ∷ m ∷ ls) h = ground (arith, plain-hash l h.0, plain-hash_last (m ∷ ls) h.1)

hash_last-empty : (ls : List (List ℕ)) → hash_last ls ≡ true → hash_last ([] ∷ ls) ≡ true
unfolding hash_last
hash_last-empty [] h = refl
hash_last-empty (l ∷ ls) h = h

pub tokenise-hash_last :
    (sub : List ℕ) → levels_ok (levels sub) ≡ true → hash_last (tokenise sub) ≡ true
tokenise-hash_last sub h =
    let ok = levels_ok-hash_last (levels sub) h in
    elim (Bool-cases (starts_with dollar sub)) [
      | inl d ↦ rw (tokenise-levels sub, d) ok
      | inr n ↦ rw (tokenise-levels sub, n) (hash_last-empty (levels sub) ok)
    ]

-- A level that starts with $ is no wildcard.
pub dollar_level :
    (c : ℕ) (l : List ℕ)
    → (c == dollar) ≡ true
    → (is_char hash (c ∷ l) ≡ false) × (is_char plus (c ∷ l) ≡ false)
dollar_level c [] d = (ground arith, ground arith)
dollar_level c (e ∷ l) d = (refl, refl)

-- The first token is no #.
pub first_token-hash : (sub : List ℕ) → is_char hash (first_token (tokenise sub)) ≡ false
first_token-hash [] = rw (tokenise-levels []) refl
first_token-hash (c ∷ str) = elim (Bool-cases (c == dollar)) [
  | inl d ↦
      let (l, ls, e) = levels-dollar c str d in
      rw (tokenise-levels (c ∷ str), d, e) (dollar_level c l d).0
  | inr n ↦ rw (tokenise-levels (c ∷ str), n) refl
]

-- What may stand in an element with this topic.
unfoldable pub Fits : List ℕ → Node → Type 0
unfolding IsTidy
Fits t n = ((not (is_char hash t) || is_null n.children) ≡ true) × IsTidy n.children

pub IsTidy-find : (t : List ℕ) (m : Node) (f : Hier) → IsTidy f → find_child t f ≡ some m → Fits t m
unfolding IsTidy find_child Fits
IsTidy-find t m null h e = cc
IsTidy-find t m (hier u s r ch next) (first, below, rest) e = elim (Bool-cases (text_eq u t)) [
  | inl same ↦
      let here : record { subs = s; retained = r; children = ch } ≡ m =
        some-injective _ _ (ground arith) in
      subst (λ x. Fits t x) here (rw (← text_eq→eq u t same) first, below)
  | inr differ ↦ IsTidy-find t m next rest (ground arith)
]

pub IsTidy-set : (t : List ℕ) (n : Node) (f : Hier) → IsTidy f → Fits t n → IsTidy (set_child t n f)
unfolding IsTidy set_child Fits
IsTidy-set t n null h b = h
IsTidy-set t n (hier u s r ch next) (first, below, rest) b = elim (Bool-cases (text_eq u t)) [
  | inl same ↦ rw same (rw (text_eq→eq u t same) b.0, b.1, rest)
  | inr differ ↦ rw differ (first, below, IsTidy-set t n next rest b)
]

IsTidy-append :
    (t : List ℕ) (n : Node) (f : Hier) → IsTidy f → Fits t n → IsTidy (append_child f t n)
unfolding IsTidy append_child Fits
IsTidy-append t n null h b = (b.0, b.1, tt)
IsTidy-append t n (hier u s r ch next) (first, below, rest) b =
    (first, below, IsTidy-append t n next rest b)

pub IsTidy-unlink : (t : List ℕ) (f : Hier) → IsTidy f → IsTidy (unlink_child t f)
unfolding IsTidy unlink_child
IsTidy-unlink t null h = h
IsTidy-unlink t (hier u s r ch next) (first, below, rest) = elim (Bool-cases (text_eq u t)) [
  | inl same ↦ rw same rest
  | inr differ ↦ rw differ (first, below, IsTidy-unlink t next rest)
]

module _ (ids : ℕ → Option (List ℕ)) (qos : ℕ) (c : Option Subscriber) where
  pub sub_add-Fits :
      (at : List (List ℕ)) (t : List ℕ) (ts : List (List ℕ)) (n : Node)
      → hash_last (t ∷ ts) ≡ true
      → Fits t n
      → Fits t (sub_add ids qos at c ts n).1
  unfolding sub_add hash_last Fits
  sub_add-Fits at t [] n ok h = h
  sub_add-Fits at t (u ∷ ts) n ok h = elim (Option-cases (find_child u n.children)) [
    | inl e ↦
        rw (sub_add, e)
          (
            ground arith,
            IsTidy-append u _ n.children h.1 (
                sub_add-Fits (at ++ (u ∷ [])) u ts empty_node (ground arith)
                  (unfold IsTidy in (ground arith, tt))),
          )
    | inr (m, e) ↦
        rw (sub_add, e)
          (
            ground arith,
            IsTidy-set u _ n.children h.1 (
                sub_add-Fits (at ++ (u ∷ [])) u ts m (ground arith)
                  (IsTidy-find u m n.children h.1 e)),
          )
  ]

  add_below-IsTidy :
      (t : List ℕ) (ts : List (List ℕ)) (root : Hier)
      → hash_last (t ∷ ts) ≡ true
      → IsTidy root
      → IsTidy (add_below ids qos c t ts root).1
  unfolding add_below IsTidy Fits
  add_below-IsTidy t ts root ok h = elim (Option-cases (find_child t root)) [
    | inl e ↦
        let (a, b) = sub_add-Fits (t ∷ []) t ts empty_node ok (ground arith, tt) in
        rw (add_below, e) (a, b, h)
    | inr (m, e) ↦
        rw (add_below, e)
          (IsTidy-set t _ root h (sub_add-Fits (t ∷ []) t ts m ok (IsTidy-find t m root h e)))
  ]

pub hash_last-first :
    (sub : List ℕ)
    → hash_last (tokenise sub) ≡ true
    → hash_last (first_token (tokenise sub) ∷ tokenise sub) ≡ true
hash_last-first sub h = go (tokenise sub) (first_token-hash sub) h
  where
    go :
        (ts : List (List ℕ))
        → is_char hash (first_token ts) ≡ false
        → hash_last ts ≡ true
        → hash_last (first_token ts ∷ ts) ≡ true
    go [] n h = unfold hash_last in refl
    go (t ∷ ts) n h = unfold hash_last in ground arith

pub found-is_null : (t : List ℕ) (m : Node) (f : Hier) → find_child t f ≡ some m → is_null f ≡ false
unfolding find_child
found-is_null t m null e = cc
found-is_null t m (hier u s r ch next) e = refl

sub_remove-Fits :
    (at : List (List ℕ)) (c : Subscriber) (t : List ℕ) (ts : List (List ℕ)) (n : Node)
    → Fits t n
    → Fits t (sub_remove at c ts n).1
unfolding sub_remove Fits
sub_remove-Fits at c t [] n h = h
sub_remove-Fits at c t (u ∷ ts) n h = elim (Option-cases (find_child u n.children)) [
  | inl e ↦ rw (sub_remove, e) h
  | inr (m, e) ↦
      let free : is_char hash t ≡ false = ground (arith, found-is_null u m n.children e) in
      elim (Bool-cases (is_unused (sub_remove (at ++ (u ∷ [])) c ts m).1)) [
        | inl x ↦ rw (sub_remove, e, x, free) (refl, IsTidy-unlink u n.children h.1)
        | inr y ↦
            rw (sub_remove, e, y, free)
              (
                refl,
                IsTidy-set u _ n.children h.1
                    (sub_remove-Fits (at ++ (u ∷ [])) c u ts m (IsTidy-find u m n.children h.1 e)),
              )
      ]
]

-- Subscribing with a well-formed filter puts nothing below a #.
pub mqtt3_sub_add-IsTidy :
    (ids : ℕ → Option (List ℕ)) (c : Option Subscriber) (sub : List ℕ) (qos : ℕ) (root : Hier)
    → levels_ok (levels sub) ≡ true
    → IsTidy root
    → IsTidy (mqtt3_sub_add ids c sub qos root).1
unfolding mqtt3_sub_add
mqtt3_sub_add-IsTidy ids c sub qos root ok h =
    add_below-IsTidy ids qos c _ _ root (hash_last-first sub (tokenise-hash_last sub ok)) h

-- Unsubscribing puts nothing below a #.
pub mqtt3_sub_remove-IsTidy :
    (c : Subscriber) (sub : List ℕ) (root : Hier)
    → IsTidy root
    → IsTidy (mqtt3_sub_remove c sub root).1
unfolding mqtt3_sub_remove remove_below
mqtt3_sub_remove-IsTidy c sub root h =
    let t = first_token (tokenise sub) in
    elim (Option-cases (find_child t root)) [
      | inl e ↦ rw (mqtt3_sub_remove, remove_below, e) h
      | inr (m, e) ↦
          rw (mqtt3_sub_remove, remove_below, e)
            (IsTidy-set t _ root h
              (sub_remove-Fits (t ∷ []) c t (tokenise sub) m (IsTidy-find t m root h e)))
    ]
