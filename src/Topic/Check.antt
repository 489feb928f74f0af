-- ===== src/Topic/Check.antt =====
-- The two topic checks decide what they are meant to.
use kocom.Prelude.{
  ℕ, ◌+◌, ◌≡◌, Bool, true, not, ◌&&◌, ◌||◌, some, List, [], ◌∷◌, arith, length, leb, ◌==◌,
  if◌then◌else◌,
}
use kocom.Proto.{err_success, err_inval}
use kocom.Topic.{
  slash, plus, hash, char0, char1, inside, is_char, pub_check_loop, pub_topic_check, sub_check_loop,
  sub_topic_check,
}
use kocom.Topic.Levels.{
  levels, is_plain, levels_ok, IsText, levels-Begins, levels_ok-push, levels_ok-empty,
  levels_ok-end,
}

pub_check_loop-eq :
    (str : List ℕ) (len : ℕ)
    → pub_check_loop str len
      ≡ (if is_plain str && leb (length str + len) 65535 then err_success else err_inval)
unfolding pub_check_loop is_plain
pub_check_loop-eq [] len = ground arith
pub_check_loop-eq (c ∷ str) len = ground (arith, pub_check_loop-eq str (len + 1))

-- A topic to publish to is accepted exactly if it holds neither + nor # and has at most 65535 bytes.
pub pub_topic_check-eq :
    (str : List ℕ)
    → pub_topic_check (some str)
      ≡ (if is_plain str && leb (length str) 65535 then err_success else err_inval)
unfolding pub_topic_check
pub_topic_check-eq str = ground (arith, pub_check_loop-eq str 0)

-- The rest of a text whose first level has been begun with other characters than wildcards.
abbrev begun_ok : List (List ℕ) → Bool
begun_ok [] = true
begun_ok (l ∷ ls) = is_plain l && levels_ok ls

sub_check_loop-eq :
    (c : ℕ) (str : List ℕ) (len : ℕ)
    → IsText str
    → sub_check_loop c str len ≡ (
        if (if inside c then begun_ok (levels str) else levels_ok (levels str))
          && leb (length str + len) 65535
        then err_success
        else err_inval)
unfolding sub_check_loop levels is_plain
sub_check_loop-eq c [] len h = ground (arith, levels_ok-end)
sub_check_loop-eq c (s ∷ str) len h =
    let (l, ls, b) = levels-Begins str h.1 in
    ground (
      arith,
      b.split,
      b.first,
      b.last,
      levels_ok-push s l ls,
      levels_ok-empty l ls,
      sub_check_loop-eq s str (len + 1) h.1,
    )

-- A subscription filter, a text without zero bytes, is accepted exactly if its wildcards stand
-- alone in their levels, # only in the last one, it has at most 65535 bytes, and it is none of the
-- filters that this program forbids besides: "#", "+" and those that start with "+/".
pub sub_topic_check-eq :
    (str : List ℕ)
    → IsText str
    → sub_topic_check str ≡ (
        if levels_ok (levels str)
          && leb (length str) 65535
          && not (is_char hash str || is_char plus str || (char0 str == plus && char1 str == slash))
        then err_success
        else err_inval)
unfolding sub_topic_check
sub_topic_check-eq str h = ground (arith, sub_check_loop-eq 0 str 0 h)
