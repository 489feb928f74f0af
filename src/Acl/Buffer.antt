-- ===== src/Acl/Buffer.antt =====
-- The buffer for a pattern is filled exactly.
use kocom.Prelude.{
  ℕ, ◌+◌, ◌-◌, ◌*◌, ◌≡◌, refl, ◌∙◌, true, false, ◌&&◌, Option, none, some, List, [], ◌∷◌, arith,
  ◌==◌, length, length-append, inl, inr, Bool-cases, ==_iff,
}
use kocom.Acl.{Acl, percent, letter_c, letter_u, count_marker, substitute, local_length, local_acl}

one_more : (n m : ℕ) → (1 + n) * m ≡ m + n * m
one_more n m = omega arith

module _ (k x y : ℕ) (str : List ℕ) where
  count_marker-hit :
      (x == percent && y == k) ≡ true → count_marker k (x ∷ y ∷ str) ≡ 1 + count_marker k str
  unfolding count_marker
  count_marker-hit h = rw (count_marker, h) refl

  count_marker-miss :
      (x == percent && y == k) ≡ false → count_marker k (x ∷ y ∷ str) ≡ count_marker k (y ∷ str)
  unfolding count_marker
  count_marker-miss h = rw (count_marker, h) refl

length-substitute-none :
    (id : List ℕ) (str : List ℕ)
    → length (substitute id none str) + count_marker letter_c str * 2
      ≡ length str + count_marker letter_c str * length id
unfolding substitute count_marker
length-substitute-none id [] = omega arith
length-substitute-none id (x ∷ []) = omega arith
length-substitute-none id (x ∷ y ∷ str) = elim (Bool-cases (x == percent && y == letter_c)) [
  | inl c ↦
      rw
        (
          substitute,
          c,
          count_marker-hit letter_c x y str c,
          length-append id (substitute id none str),
        )
        (omega
          (arith, length-substitute-none id str, one_more (count_marker letter_c str) (length id)))
  | inr n ↦
      rw (substitute, n, count_marker-miss letter_c x y str n)
        (omega (arith, length-substitute-none id (y ∷ str)))
]

-- A letter that does not start a marker is passed over.
count_marker-letter :
    (k y : ℕ) (str : List ℕ)
    → (y == percent) ≡ false
    → count_marker k (y ∷ str) ≡ count_marker k str
unfolding count_marker
count_marker-letter k y [] n = refl
count_marker-letter k y (z ∷ str) n = rw (count_marker, n) refl

-- After a marker for one letter there is none for the other at the same place.
count_marker-other :
    (k m x y : ℕ) (str : List ℕ)
    → (x == percent && y == m) ≡ true
    → (m == k) ≡ false
    → (m == percent) ≡ false
    → count_marker k (x ∷ y ∷ str) ≡ count_marker k str
unfolding count_marker
count_marker-other k m x y str h n np =
    let miss : (x == percent && y == k) ≡ false = ground arith in
    count_marker-miss k x y str miss ∙ count_marker-letter k y str (ground arith)

length-substitute-some :
    (id name str : List ℕ)
    → length (substitute id (some name) str)
        + (count_marker letter_c str * 2 + count_marker letter_u str * 2)
      ≡ length str + count_marker letter_c str * length id + count_marker letter_u str * length name
unfolding substitute
length-substitute-some id name [] = unfold count_marker in omega arith
length-substitute-some id name (x ∷ []) = unfold count_marker in omega arith
length-substitute-some id name (x ∷ y ∷ str) = elim (Bool-cases (x == percent && y == letter_c)) [
  | inl c ↦
      let once = count_marker-hit letter_c x y str c in
      rw
        (
          substitute,
          c,
          once,
          count_marker-other letter_u letter_c x y str c refl refl,
          length-append id (substitute id (some name) str),
        )
        (omega (
          arith,
          length-substitute-some id name str,
          one_more (count_marker letter_c str) (length id),
        ))
  | inr n ↦ elim (Bool-cases (x == percent && y == letter_u)) [
    | inl u ↦
        let once = count_marker-hit letter_u x y str u in
        rw
          (
            substitute,
            n,
            u,
            once,
            count_marker-other letter_c letter_u x y str u refl refl,
            length-append name (substitute id (some name) str),
          )
          (omega (
            arith,
            length-substitute-some id name str,
            one_more (count_marker letter_u str) (length name),
          ))
    | inr m ↦
        let no_c = count_marker-miss letter_c x y str n in
        let no_u = count_marker-miss letter_u x y str m in
        rw (substitute, n, m, no_c, no_u) (omega (arith, length-substitute-some id name (y ∷ str)))
  ]
]

-- An entry that _add_acl_pattern has made.
unfoldable pub IsPattern : Acl → Type 0
unfolding count_marker
IsPattern a =
    (a.ccount ≡ count_marker letter_c a.topic) × (a.ucount ≡ count_marker letter_u a.topic)

-- For an entry with the counts that _add_acl_pattern stores, and any id and user name or none, the
-- loop that replaces %c and %u writes exactly the bytes before the terminator of the buffer that
-- was allocated, and what it writes is the pattern with the markers replaced.
pub local_acl-exact :
    (id : List ℕ) (user : Option (List ℕ)) (a : Acl)
    → IsPattern a
    → local_acl id user a ≡ some (substitute id user a.topic)
unfolding local_acl local_length IsPattern
local_acl-exact id none a (c, u) =
    let e : length (substitute id none a.topic)
        ≡ length a.topic
          + count_marker letter_c a.topic * length id
          - count_marker letter_c a.topic * 2 =
      omega (arith, length-substitute-none id a.topic) in
    rw (c, (==_iff _ _).1 e) refl
local_acl-exact id (some name) a (c, u) =
    let e : length (substitute id (some name) a.topic)
        ≡ length a.topic
          + count_marker letter_c a.topic * length id
          + count_marker letter_u a.topic * length name
          - (count_marker letter_c a.topic * 2 + count_marker letter_u a.topic * 2) =
      omega (arith, length-substitute-some id name a.topic) in
    rw (c, u, (==_iff _ _).1 e) refl
