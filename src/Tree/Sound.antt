-- ===== src/Tree/Sound.antt =====
-- Cleaning a session (mqtt3_subs_clean_session of src/subs.c) keeps the shape of any tree that it
-- comes through.
use kocom.Prelude.{
  ℕ, ◌≡◌, refl, Bool, true, false, Option, none, some, List, [], ◌∷◌, arith, inl, inr, Option-cases,
  if◌then◌else◌,
}
use kocom.Topic.{hash, is_char}
use kocom.Tree.{empty_node, Hier, Node, Subscriber, find_child, set_child, unlink_child, is_unused}
use kocom.Tree.Paths.{IsUnique, IsUnique-set, IsUnique-unlink, IsUnique-find}
use kocom.Tree.Walk.{IsTidy}
use kocom.Tree.Tidy.{Fits, IsTidy-find, IsTidy-set, IsTidy-unlink, found-is_null}
use kocom.Tree.Clean.{has_no_parent, clean_at, clean_path, clean_slots, subs_clean_session}

-- The result, if there is one.
abbrev Kept {ℓ} : {A : Type 0} → (A → Type ℓ) → Option A → Type ℓ
Kept P none = Unit
Kept P (some a) = P a

Kept-some {ℓ} : {A : Type 0} (P : A → Type ℓ) (o : Option A) (a : A) → o ≡ some a → Kept P o → P a
Kept-some P o a e k = rw e at k

abbrev Sound : Hier → Type 0
Sound f = IsUnique f × IsTidy f

abbrev SoundAt : List ℕ → Node → Type 0
SoundAt t n = IsUnique n.children × Fits t n

find-SoundAt : (t : List ℕ) (m : Node) (f : Hier) → Sound f → find_child t f ≡ some m → SoundAt t m
find-SoundAt t m f (u, h) e = (IsUnique-find t m f u e, IsTidy-find t m f h e)

set-Sound : (t : List ℕ) (m : Node) (f : Hier) → Sound f → SoundAt t m → Sound (set_child t m f)
set-Sound t m f (u, h) (v, k) = (IsUnique-set t m f u v, IsTidy-set t m f h k)

unlink-Sound : (t : List ℕ) (f : Hier) → Sound f → Sound (unlink_child t f)
unlink-Sound t f (u, h) = (IsUnique-unlink t empty_node f u, IsTidy-unlink t f h)

choice-Sound : (b : Bool) (x y : Hier) → Sound x → Sound y → Sound (if b then x else y)
choice-Sound true x y h k = h
choice-Sound false x y h k = k

clean_at-SoundAt :
    (addr : ℕ) (ts : List (List ℕ)) (t : List ℕ) (n : Node)
    → SoundAt t n
    → Kept (SoundAt t) (clean_at addr ts n)
unfolding clean_at Fits
clean_at-SoundAt addr [] t n h = h
clean_at-SoundAt addr (u ∷ ts) t n h = elim (Option-cases (find_child u n.children)) [
  | inl e ↦ rw (e, clean_at) tt
  | inr (m, e) ↦
      let whole : Sound n.children = (h.0, h.1.1) in
      let free : is_char hash t ≡ false = ground (arith, h.1.0, found-is_null u m n.children e) in
      let below = clean_at-SoundAt addr ts u m (find-SoundAt u m n.children whole e) in
      elim (Option-cases (clean_at addr ts m)) [
        | inl gone ↦ rw (e, gone, clean_at) tt
        | inr (m', f) ↦
            let at = Kept-some (SoundAt u) (clean_at addr ts m) m' f below in
            let after =
              choice-Sound (is_unused m') _ _ (unlink-Sound u n.children whole)
                (set-Sound u m' n.children whole at) in
            rw (e, f, clean_at) (after.0, (rw free refl, after.1))
      ]
]

clean_path-Sound :
    (addr : ℕ) (path : List (List ℕ)) (root : Hier)
    → Sound root
    → Kept Sound (clean_path addr path root)
unfolding clean_path
clean_path-Sound addr [] root h = tt
clean_path-Sound addr (t ∷ ts) root h = elim (Option-cases (find_child t root)) [
  | inl e ↦ rw (e, clean_path) tt
  | inr (m, e) ↦
      let below = clean_at-SoundAt addr ts t m (find-SoundAt t m root h e) in
      elim (Option-cases (clean_at addr ts m)) [
        | inl gone ↦ rw (e, gone, clean_path) tt
        | inr (m', f) ↦
            let at = Kept-some (SoundAt t) (clean_at addr ts m) m' f below in
            let stays = set-Sound t m' root h at in
            rw (e, f, clean_path)
              (choice-Sound (has_no_parent t) _ _ stays
                (choice-Sound (is_unused m') _ _ (unlink-Sound t root h) stays))
      ]
]

clean_slots-Sound :
    (addr : ℕ) (slots : List (Option (List (List ℕ)))) (root : Hier)
    → Sound root
    → Kept Sound (clean_slots addr slots root)
unfolding clean_slots
clean_slots-Sound addr [] root h = h
clean_slots-Sound addr (none ∷ slots) root h = clean_slots-Sound addr slots root h
clean_slots-Sound addr (some path ∷ slots) root h =
    elim (Option-cases (clean_path addr path root)) [
      | inl gone ↦ rw (gone, clean_slots) tt
      | inr (root', e) ↦
          rw (e, clean_slots)
            (clean_slots-Sound addr slots root' (
              Kept-some Sound (clean_path addr path root) root' e
                (clean_path-Sound addr path root h)))
    ]

session-Sound :
    (c : Subscriber) (root : Hier)
    → Sound root
    → Kept (λ (r : Subscriber × Hier). Sound r.1) (subs_clean_session c root)
unfolding subs_clean_session
session-Sound c root h = elim (Option-cases (clean_slots c.addr c.subs root)) [
  | inl gone ↦ rw (gone, subs_clean_session) tt
  | inr (r, e) ↦
      rw (e, subs_clean_session)
        (Kept-some Sound (clean_slots c.addr c.subs root) r e
          (clean_slots-Sound c.addr c.subs root h))
]

-- A session is cleaned without a look at the tree's shape: elements with one parent still differ, and
-- nothing is below a #.
pub subs_clean_session-Sound :
    (c c' : Subscriber) (root root' : Hier)
    → subs_clean_session c root ≡ some (c', root')
    → IsUnique root × IsTidy root
    → IsUnique root' × IsTidy root'
subs_clean_session-Sound c c' root root' e h =
    Kept-some (λ (r : Subscriber × Hier). Sound r.1) (subs_clean_session c root) (c', root') e
      (session-Sound c root h)
