-- ===== src/Topic.antt =====
-- Topics and subscription filters: mosquitto_pub_topic_check, mosquitto_sub_topic_check and
-- mosquitto_topic_matches_sub of lib/util_mosq.c. A C string is the list of its bytes, none of which
-- is 0; a pointer that may be NULL is an option.
pub mod Levels
pub mod Check
pub mod Steps
pub mod Matching
use kocom.Prelude.{
  ℕ, zero, suc, ◌+◌, Bool, true, false, not, ◌&&◌, ◌||◌, Option, none, some, List, [], ◌∷◌, ltb,
  ◌==◌, if◌then◌else◌,
}
use kocom.Proto.{err_success, err_inval}

abbrev pub slash : ℕ
slash = b'/'

abbrev pub plus : ℕ
plus = b'+'

abbrev pub hash : ℕ
hash = b'#'

abbrev pub dollar : ℕ
dollar = b'$'

-- The loop, with the length counted so far.
unfoldable pub pub_check_loop : List ℕ → ℕ → ℕ
pub_check_loop [] len = if ltb 65535 len then err_inval else err_success
pub_check_loop (c ∷ str) len =
    let rest = pub_check_loop str (len + 1) in if c == plus || c == hash then err_inval else rest

unfoldable pub pub_topic_check : Option (List ℕ) → ℕ
unfolding pub_check_loop
pub_topic_check none = err_success
pub_topic_check (some str) = pub_check_loop str 0

-- str[0] and str[1], where the end of the string reads as 0
abbrev pub char0 : List ℕ → ℕ
char0 [] = 0
char0 (c ∷ str) = c

abbrev pub char1 : List ℕ → ℕ
char1 [] = 0
char1 (c ∷ str) = char0 str

-- c != '\0' && c != '/'
abbrev pub inside : ℕ → Bool
inside c = not (c == 0) && not (c == slash)

-- The loop, with the character before and the length counted so far.
unfoldable pub sub_check_loop : ℕ → List ℕ → ℕ → ℕ
sub_check_loop c [] len = if ltb 65535 len then err_inval else err_success
sub_check_loop c (s ∷ str) len =
    let rest = sub_check_loop s str (len + 1) in
    if s == plus
    then (if inside c || inside (char0 str) then err_inval else rest)
    else if s == hash
    then (if inside c || not (char0 str == 0) then err_inval else rest)
    else rest

-- strcmp(str, "#") == 0, strcmp(str, "+") == 0
abbrev pub is_char : ℕ → List ℕ → Bool
is_char k [] = false
is_char k (c ∷ []) = c == k
is_char k (c ∷ d ∷ str) = false

unfoldable pub sub_topic_check : List ℕ → ℕ
unfolding sub_check_loop
sub_topic_check str =
    if is_char hash str || is_char plus str
    then err_inval
    else if char0 str == plus && char1 str == slash
    then err_inval
    else sub_check_loop 0 str 0

-- while(tpos < tlen && topic[tpos] != '/') tpos++;
unfoldable pub skip_level : List ℕ → List ℕ
skip_level [] = []
skip_level (t ∷ ts) = let rest = skip_level ts in if t == slash then t ∷ ts else rest

abbrev pub is_nil : List ℕ → Bool
is_nil [] = true
is_nil (c ∷ str) = false

-- The rest of the filter is "/#".
abbrev pub is_slash_hash : List ℕ → Bool
is_slash_hash [] = false
is_slash_hash (a ∷ str) = a == slash && is_char hash str

-- The loop, over the rest of the filter and the rest of the topic: `spos == slen - 3` is that two
-- characters follow, and so on. The result is what *result is set to; `none` is that it is not set.
unfoldable pub match_loop : List ℕ → List ℕ → Option Bool
match_loop [] [] = none
match_loop [] (t ∷ ts) = some false
match_loop (s ∷ ss) [] = some false
match_loop (s ∷ ss) (t ∷ ts) =
    let together = match_loop ss ts in
    let skipped = skip_level (t ∷ ts) in
    let after_plus = match_loop ss skipped in
    if s == t
    then (if is_nil ts && is_slash_hash ss
        then some true
        else if is_nil ss && is_nil ts
        then some true
        else if is_nil ts && is_char plus ss
        then some true
        else together)
    else if s == plus
    then (if is_nil skipped && is_nil ss then some true else after_plus)
    else if s == hash
    then some (is_nil ss)
    else some false

-- sub[0] == '$' && topic[0] != '$' || topic[0] == '$' && sub[0] != '$', for two non-empty strings
abbrev pub dollar_differs : List ℕ → List ℕ → Bool
dollar_differs [] topic = false
dollar_differs (s ∷ ss) [] = false
dollar_differs (s ∷ ss) (t ∷ ts) =
    (s == dollar && not (t == dollar)) || (t == dollar && not (s == dollar))

-- The return code, and what *result is set to; `result` says whether that pointer is not NULL.
unfoldable pub topic_matches_sub : Option (List ℕ) → Option (List ℕ) → Bool → ℕ × Option Bool
unfolding match_loop skip_level
topic_matches_sub none topic result = (err_inval, none)
topic_matches_sub (some sub) none result = (err_inval, none)
topic_matches_sub (some sub) (some topic) false = (err_inval, none)
topic_matches_sub (some sub) (some topic) true =
    if dollar_differs sub topic
    then (err_success, some false)
    else (err_success, match_loop sub topic)
