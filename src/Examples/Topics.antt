-- ===== src/Examples/Topics.antt =====
-- Topics: lib/util_mosq.c at concrete inputs.
use kocom.Prelude.{
  ℕ, ◌≡◌, refl, true, false, not, some, List, [], ◌∷◌, ◌&&◌, ◌||◌, arith, length, leb, ◌==◌,
  if◌then◌else◌,
}
use kocom.Proto.{err_success, err_inval}
use kocom.Topic.{
  slash, plus, hash, is_char, char0, char1, topic_matches_sub, pub_topic_check, sub_topic_check,
  skip_level,
}
use kocom.Topic.Levels.{levels, levels_ok, levels_match, is_plain}
use kocom.Topic.Steps.{no_hash}
use kocom.Topic.Check.{sub_topic_check-eq, pub_topic_check-eq}
use kocom.Topic.Matching.{
  filter_matches, topic_matches_sub-exact, topic_matches_sub-no_false_match,
  topic_matches_sub-plus-hash,
}

-- "a/+" and "a/b"
abbrev a_plus : List ℕ
a_plus = 97 ∷ slash ∷ plus ∷ []

abbrev a_b : List ℕ
a_b = 97 ∷ slash ∷ 98 ∷ []

topic_matches_sub-exact_example :
    topic_matches_sub (some a_plus) (some a_b) true
    ≡ (err_success, some (filter_matches a_plus a_b))
unfolding levels levels_ok is_plain no_hash
topic_matches_sub-exact_example =
    topic_matches_sub-exact a_plus a_b (omega arith, (omega arith, (omega arith, tt)))
      (omega arith, (omega arith, (omega arith, tt))) refl refl refl refl

topic_matches_sub-no_false_match_example :
    topic_matches_sub (some (98 ∷ slash ∷ hash ∷ [])) (some a_b) true ≡ (err_success, some false)
unfolding levels levels_ok levels_match is_plain
topic_matches_sub-no_false_match_example =
    topic_matches_sub-no_false_match (98 ∷ slash ∷ hash ∷ []) a_b
      (omega arith, (omega arith, (omega arith, tt)))
      (omega arith, (omega arith, (omega arith, tt))) refl refl refl refl

topic_matches_sub-plus-hash_example :
    (filter_matches (plus ∷ slash ∷ hash ∷ []) (97 ∷ 98 ∷ []) ≡ true)
    × (topic_matches_sub (some (plus ∷ slash ∷ hash ∷ [])) (some (97 ∷ 98 ∷ [])) true
        ≡ (err_success, some false))
unfolding is_plain skip_level
topic_matches_sub-plus-hash_example =
    topic_matches_sub-plus-hash 97 (98 ∷ []) (omega arith, (omega arith, tt)) refl refl refl

sub_topic_check-eq_example : sub_topic_check a_plus ≡ (
    if levels_ok (levels a_plus)
      && leb (length a_plus) 65535
      && not (
          is_char hash a_plus
          || is_char plus a_plus
          || (char0 a_plus == plus && char1 a_plus == slash))
    then err_success
    else err_inval)
sub_topic_check-eq_example =
    sub_topic_check-eq a_plus (omega arith, (omega arith, (omega arith, tt)))

pub_topic_check-eq_example :
    pub_topic_check (some a_b)
    ≡ (if is_plain a_b && leb (length a_b) 65535 then err_success else err_inval)
pub_topic_check-eq_example = pub_topic_check-eq a_b

-- The filter takes in the topic.
a_plus_matches : filter_matches a_plus a_b ≡ true
unfolding levels levels_match
a_plus_matches = refl
