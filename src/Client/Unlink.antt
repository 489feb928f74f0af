-- ===== src/Client/Unlink.antt =====
-- How a message is found in a queue and taken out of it.
use kocom.Prelude.{
  ℕ, suc, ◌≡◌, refl, ap, ◌∙◌, true, false, Option, none, some, List, [], ◌∷◌, ◌++◌, All, arith,
  length, length-append, ◌==◌, inl, inr, Bool-cases, ==_iff,
}
use kocom.Client.{Message, unlink}

-- Where `unlink` finds its message.
pub record Unlinked (mid : ℕ) (ms : List Message) (m : Message) (left : List Message) : Type 0 where
  pub pre : List Message
  pub post : List Message
  pub before : ms ≡ pre ++ (m ∷ post)
  pub after : left ≡ pre ++ post
  pub same_mid : m.mid ≡ mid
  pub oldest : All (λ (x : Message). (x.mid == mid) ≡ false) pre

Unlinked-cons :
    {mid : ℕ} {ms : List Message} {m : Message} {left : List Message} (x : Message)
    → (x.mid == mid) ≡ false
    → Unlinked mid ms m left
    → Unlinked mid (x ∷ ms) m (x ∷ left)
Unlinked-cons x h u = record {
  pre = x ∷ u.pre;
  post = u.post;
  before = ap (λ l. x ∷ l) u.before;
  after = ap (λ l. x ∷ l) u.after;
  same_mid = u.same_mid;
  oldest = (h, u.oldest);
}

-- The two ways in which a message is found.
data Found (mid : ℕ) (x : Message) (ms : List Message) (m : Message) (left : List Message)
    : Type 0 where
  at_head : (x.mid == mid) ≡ true → m ≡ x → left ≡ ms → Found mid x ms m left
  behind :
      (l : List Message)
      → (x.mid == mid) ≡ false
      → unlink mid ms ≡ some (m, l)
      → left ≡ x ∷ l
      → Found mid x ms m left

found :
    (mid : ℕ) (x : Message) (ms : List Message) (m : Message) (left : List Message)
    → (o : Option (Message × List Message)) → unlink mid ms ≡ o
    → unlink mid (x ∷ ms) ≡ some (m, left)
    → Found mid x ms m left
unfolding unlink
found mid x ms m left none q e = elim (Bool-cases (x.mid == mid)) [
  | inl hit ↦ at_head hit (cc (rw hit at e)) (cc (rw hit at e))
  | inr miss ↦ cc (rw (miss, q) at e)
]
found mid x ms m left (some (m', l)) q e = elim (Bool-cases (x.mid == mid)) [
  | inl hit ↦ at_head hit (cc (rw hit at e)) (cc (rw hit at e))
  | inr miss ↦ behind l miss (q ∙ cc (rw (miss, q) at e)) (cc (rw (miss, q) at e))
]

-- `unlink` takes out the oldest message with the id, and leaves the others in their order.
pub unlink-Unlinked :
    (mid : ℕ) (ms : List Message) (m : Message) (left : List Message)
    → unlink mid ms ≡ some (m, left)
    → Unlinked mid ms m left
unlink-Unlinked mid [] m left e = unfold unlink in cc
unlink-Unlinked mid (x ∷ ms) m left e = elim (found mid x ms m left (unlink mid ms) refl e) [
  | at_head hit p q ↦ record {
    pre = [];
    post = ms;
    before = rw p;
    after = q;
    same_mid = rw p ((==_iff x.mid mid).0 hit);
    oldest = tt;
  }
  | behind l miss u q ↦ rw q (Unlinked-cons x miss (unlink-Unlinked mid ms m l u))
]

pub All-unlink {ℓ} :
    (P : Message → Type ℓ) (mid : ℕ) (ms : List Message) (m : Message) (left : List Message)
    → unlink mid ms ≡ some (m, left)
    → All P ms
    → All P left × P m
All-unlink P mid [] m left e h = unfold unlink in cc
All-unlink P mid (x ∷ ms) m left e h = elim (found mid x ms m left (unlink mid ms) refl e) [
  | at_head hit p q ↦ rw (p, q) (h.1, h.0)
  | behind l miss u q ↦ let (a, b) = All-unlink P mid ms m l u h.1 in rw q ((h.0, a), b)
]

pub length-unlink :
    (mid : ℕ) (ms : List Message) (m : Message) (left : List Message)
    → unlink mid ms ≡ some (m, left)
    → length ms ≡ suc (length left)
length-unlink mid ms m left e =
    let u = unlink-Unlinked mid ms m left e in
    omega (
      arith,
      ap length u.before,
      ap length u.after,
      length-append u.pre (m ∷ u.post),
      length-append u.pre u.post,
    )

-- No message in the queue has the id.
abbrev pub IsFree : ℕ → List Message → Type 0
IsFree mid ms = All (λ (x : Message). (x.mid == mid) ≡ false) ms

pub unlink_free : (mid : ℕ) (ms : List Message) → IsFree mid ms → unlink mid ms ≡ none
unfolding unlink
unlink_free mid [] h = refl
unlink_free mid (m ∷ ms) h = rw (h.0, unlink_free mid ms h.1) refl

pub unlink_last :
    (mid : ℕ) (ms : List Message) (m : Message)
    → IsFree mid ms
    → m.mid ≡ mid
    → unlink mid (ms ++ (m ∷ [])) ≡ some (m, ms)
unfolding unlink
unlink_last mid [] m h e = ground (arith, e)
unlink_last mid (x ∷ ms) m h e = rw (h.0, unlink_last mid ms m h.1 e) refl
