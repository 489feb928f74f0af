-- ===== src/Acl/HashId.antt =====
-- Patterns with %c for clients that choose a wildcard as their id.
use kocom.Prelude.{ℕ, ◌≡◌, refl, true, false, none, some, List, [], ◌∷◌, arith, bit_and, ◌==◌}
use kocom.Proto.{err_success}
use kocom.Topic.{hash, dollar, topic_matches_sub}
use kocom.Topic.Levels.{is_plain}
use kocom.Topic.Matching.{match_loop-differ}
use kocom.Acl.{
  AclDb, AclClient, add_acl_pattern, percent, letter_c, count_marker, substitute, local_length,
  local_acl, try_filter, user_loop, pattern_loop, acl_check_default,
}

-- A client without a user name and without entries of its own.
abbrev pub guest : List ℕ → AclClient
guest id = record { id = some id; username = none; bridge = none; acl_list = none }

-- The lists with the one pattern %c.
abbrev pub own_topic : ℕ → AclDb
unfolding add_acl_pattern count_marker
own_topic access =
    add_acl_pattern (record { acl_list = []; acl_patterns = [] }) (percent ∷ letter_c ∷ []) access

hash_matches :
    (t : ℕ) (ts : List ℕ)
    → is_plain (t ∷ ts) ≡ true
    → (t == dollar) ≡ false
    → topic_matches_sub (some (hash ∷ [])) (some (t ∷ ts)) true ≡ (err_success, some true)
unfolding topic_matches_sub is_plain
hash_matches t ts plain nd = ground (arith, match_loop-differ hash [] t ts (ground arith))

-- With the one pattern %c, which is to open to each client the topic named by its id, a client that
-- chooses # as its id is granted the access of the pattern on every topic without wildcards that is
-- not empty and does not start with $.
pub acl_check_default-hash_id :
    (access t : ℕ) (ts : List ℕ)
    → (bit_and access access == 0) ≡ false
    → is_plain (t ∷ ts) ≡ true
    → (t == dollar) ≡ false
    → acl_check_default (own_topic access) (hash ∷ []) (guest (hash ∷ [])) (t ∷ ts) access
      ≡ some err_success
unfolding acl_check_default own_topic add_acl_pattern count_marker user_loop pattern_loop local_acl
    local_length substitute try_filter
acl_check_default-hash_id access t ts bits plain nd = rw (hash_matches t ts plain nd, bits) refl
