-- ===== src/Receive/Stream.antt =====
-- Reading from a socket whose bytes arrive in blocks of any size.
use kocom.Prelude.{
  ℕ, zero, suc, ◌≤◌, ◌≡◌, refl, ap, ◌∙◌, List, [], ◌∷◌, ◌++◌, arith, length, take, drop,
  length-eq-zero,
}
use kocom.Receive.{NetEvent, chunk, eof, again, reset, broken, bytes, net_read}

-- The bytes that are there before the next interruption.
unfoldable pub avail : List NetEvent → List ℕ
avail [] = []
avail (chunk b bs ∷ net) = b ∷ bs ++ avail net
avail (eof ∷ net) = []
avail (again ∷ net) = []
avail (reset ∷ net) = []
avail (broken ∷ net) = []

abbrev left_over : List ℕ → List NetEvent → List NetEvent
left_over xs net = elim xs [ [] ↦ net | c ∷ cs ↦ chunk c cs ∷ net ]

avail-left_over : (xs : List ℕ) (net : List NetEvent) → avail (left_over xs net) ≡ xs ++ avail net
unfolding avail
avail-left_over [] net = refl
avail-left_over (x ∷ xs) net = refl

take-drop : (n : ℕ) (xs ys : List ℕ) → take n xs ++ (drop n xs ++ ys) ≡ xs ++ ys
take-drop zero xs ys = refl
take-drop (suc n) [] ys = refl
take-drop (suc n) (x ∷ xs) ys = ap (λ l. x ∷ l) (take-drop n xs ys)

length-take-le : (n : ℕ) (xs : List ℕ) → length (take n xs) ≤ n
length-take-le zero xs = omega arith
length-take-le (suc n) [] = omega arith
length-take-le (suc n) (x ∷ xs) = omega (arith, length-take-le n xs)

-- A read that finds a byte delivers some bytes, at most as many as asked for, and leaves the rest.
pub net_read-avail :
    (count : ℕ) (net : List NetEvent) (b : ℕ) (bs : List ℕ)
    → avail net ≡ b ∷ bs
    → (xs : List ℕ) × (net' : List NetEvent) × (net_read (suc count) net ≡ (bytes (b ∷ xs), net'))
      × (xs ++ avail net' ≡ bs)
      × (length xs ≤ count)
unfolding avail net_read
net_read-avail count [] b bs e = cc
net_read-avail count (eof ∷ net) b bs e = cc
net_read-avail count (again ∷ net) b bs e = cc
net_read-avail count (reset ∷ net) b bs e = cc
net_read-avail count (broken ∷ net) b bs e = cc
net_read-avail count (chunk c cs ∷ net) b bs e =
    let hd : c ≡ b = cc in
    (
      take count cs,
      left_over (drop count cs) net,
      rw hd,
      rw (avail-left_over (drop count cs) net) (take-drop count cs (avail net) ∙ cc),
      length-take-le count cs,
    )

-- Reading one byte.
pub net_read_one :
    (net : List NetEvent) (b : ℕ) (bs : List ℕ)
    → avail net ≡ b ∷ bs
    → (net' : List NetEvent) × (net_read 1 net ≡ (bytes (b ∷ []), net')) × (avail net' ≡ bs)
net_read_one net b bs e =
    let (xs, net', er, ea, le) = net_read-avail 0 net b bs e in
    let none_left = length-eq-zero xs (omega arith) in
    (net', rw (← none_left) er, rw none_left at ea)
