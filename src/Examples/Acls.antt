-- ===== src/Examples/Acls.antt =====
-- The access lists at concrete inputs: the client 7 with an entry a, and the pattern b/%c.
use kocom.Prelude.{ℕ, ◌≡◌, refl, none, some, List, [], ◌∷◌, arith, if◌then◌else◌, ◌||◌}
use kocom.Proto.{err_success, err_acl_denied}
use kocom.Topic.{hash}
use kocom.Topic.Levels.{levels, levels_match, levels_ok, is_plain}
use kocom.Topic.Steps.{no_hash}
use kocom.Acl.{
  Acl, AclDb, AclClient, add_acl, add_to_user, add_acl_pattern, count_marker, substitute, local_acl,
  acl_check_default,
}
use kocom.Acl.Buffer.{IsPattern, local_acl-exact}
use kocom.Acl.Loops.{IsFilter, any_entry, any_pattern, no_hash_entry, no_hash_pattern}
use kocom.Acl.Check.{is_exempt, is_granted, acl_check_default-denied, acl_check_default-exact}
use kocom.Acl.HashId.{own_topic, guest, acl_check_default-hash_id}

abbrev pattern_text : List ℕ
pattern_text = 98 ∷ 47 ∷ 37 ∷ 99 ∷ []

abbrev lists : AclDb
unfolding add_acl add_to_user add_acl_pattern count_marker
lists =
    add_acl_pattern
      (add_acl (record { acl_list = []; acl_patterns = [] }) (some (117 ∷ [])) (97 ∷ []) 1)
      pattern_text 3

abbrev own_entry : Acl
own_entry = record { topic = 97 ∷ []; access = 1; ucount = 0; ccount = 0 }

abbrev seven : AclClient
seven = record {
  id = some (55 ∷ []);
  username = some (117 ∷ []);
  bridge = none;
  acl_list = some (own_entry ∷ []);
}

abbrev pattern_entry : Acl
pattern_entry = record { topic = pattern_text; access = 3; ucount = 0; ccount = 1 }

pattern_entry-IsPattern : IsPattern pattern_entry
unfolding IsPattern count_marker
pattern_entry-IsPattern = (refl, refl)

local_acl-exact_example :
    local_acl (55 ∷ []) none pattern_entry ≡ some (substitute (55 ∷ []) none pattern_text)
local_acl-exact_example = local_acl-exact (55 ∷ []) none pattern_entry pattern_entry-IsPattern

own-IsFilter : IsFilter (97 ∷ [])
unfolding IsFilter levels levels_ok is_plain
own-IsFilter = ((omega arith, tt), refl)

pattern-IsFilter : IsFilter (substitute (55 ∷ []) (some (117 ∷ [])) pattern_text)
unfolding IsFilter levels levels_ok is_plain substitute
pattern-IsFilter = ((omega arith, (omega arith, (omega arith, tt))), refl)

acl_check_default-exact_example :
    acl_check_default lists (55 ∷ []) seven (98 ∷ 47 ∷ 55 ∷ []) 2
    ≡ some (
        if is_exempt lists seven || is_granted lists (55 ∷ []) seven (98 ∷ 47 ∷ 55 ∷ []) 2
        then err_success
        else err_acl_denied)
unfolding lists add_acl add_to_user add_acl_pattern count_marker
acl_check_default-exact_example =
    acl_check_default-exact lists (55 ∷ []) seven (98 ∷ 47 ∷ 55 ∷ []) 2
      (omega arith, (omega arith, (omega arith, tt))) (unfold is_plain in refl) refl
      (own-IsFilter, tt) ((pattern_entry-IsPattern, pattern-IsFilter), tt)
      (unfold no_hash_entry no_hash in refl) (unfold no_hash_pattern no_hash substitute in refl)

acl_check_default-denied_example :
    acl_check_default lists (55 ∷ []) seven (98 ∷ 47 ∷ 56 ∷ []) 2 ≡ some err_acl_denied
unfolding lists add_acl add_to_user add_acl_pattern count_marker
acl_check_default-denied_example =
    acl_check_default-denied lists (55 ∷ []) seven (98 ∷ 47 ∷ 56 ∷ []) 2
      (omega arith, (omega arith, (omega arith, tt))) (unfold is_plain in refl) refl
      (own-IsFilter, tt) ((pattern_entry-IsPattern, pattern-IsFilter), tt) refl
      (unfold is_granted any_entry any_pattern substitute levels levels_match in refl)

acl_check_default-hash_id_example :
    acl_check_default (own_topic 1) (hash ∷ []) (guest (hash ∷ [])) (98 ∷ []) 1 ≡ some err_success
acl_check_default-hash_id_example =
    acl_check_default-hash_id 1 98 [] refl (unfold is_plain in refl) refl
