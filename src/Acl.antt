-- ===== src/Acl.antt =====
-- The broker's access lists: _add_acl, _add_acl_pattern and mosquitto_acl_check_default of
-- src/security_default.c, mosquitto_acl_check of src/security.c, and the structures _mosquitto_acl
-- and _mosquitto_acl_user of src/mosquitto_broker.h. Allocations are taken to succeed.
pub mod Buffer
pub mod Loops
pub mod Check
pub mod HashId
use kocom.Prelude.{
  ℕ, ◌+◌, ◌-◌, ◌*◌, Bool, true, false, not, ◌&&◌, ◌||◌, Option, none, some, List, [], ◌∷◌, ◌++◌,
  bit_and, ◌==◌, text_eq, if◌then◌else◌, length, is_some,
}
use kocom.Proto.{err_success, err_acl_denied}
use kocom.Topic.{dollar, topic_matches_sub, char0}

-- struct _mosquitto_acl
pub record Acl : Type 0 where
  pub topic : List ℕ
  pub access : ℕ
  pub ucount : ℕ
  pub ccount : ℕ

-- struct _mosquitto_acl_user; the entries for everyone have no username.
pub record AclUser : Type 0 where
  pub username : Option (List ℕ)
  pub acl : List Acl

-- acl_list and acl_patterns of struct mosquitto_db
pub record AclDb : Type 0 where
  pub acl_list : List AclUser
  pub acl_patterns : List Acl

-- What the check uses of a client: `bridge` is the local user name of a bridge, and `acl_list` the
-- entries of context->acl_list.
pub record AclClient : Type 0 where
  pub id : Option (List ℕ)
  pub username : Option (List ℕ)
  pub bridge : Option (Option (List ℕ))
  pub acl_list : Option (List Acl)

abbrev pub user_eq : Option (List ℕ) → Option (List ℕ) → Bool
user_eq none none = true
user_eq (some u) (some v) = text_eq u v
user_eq _ _ = false

-- The search for the user in _add_acl, and the entry behind the others, or with a new user at the end.
unfoldable pub add_to_user : Option (List ℕ) → Acl → List AclUser → List AclUser
add_to_user user acl [] = record { username = user; acl = acl ∷ [] } ∷ []
add_to_user user acl (u ∷ us) =
    let rest = add_to_user user acl us in
    if user_eq u.username user then record u { acl = u.acl ++ (acl ∷ []) } ∷ us else u ∷ rest

-- _add_acl
unfoldable pub add_acl : AclDb → Option (List ℕ) → List ℕ → ℕ → AclDb
add_acl db user topic access =
    let acl : Acl = record { topic = topic; access = access; ucount = 0; ccount = 0 } in
    record db { acl_list = add_to_user user acl db.acl_list }

abbrev pub percent : ℕ
percent = 37

abbrev pub letter_c : ℕ
letter_c = 99

abbrev pub letter_u : ℕ
letter_u = 117

-- The loop over strstr(s, "%c"), or "%u".
unfoldable pub count_marker : ℕ → List ℕ → ℕ
count_marker k [] = 0
count_marker k (x ∷ []) = 0
count_marker k (x ∷ y ∷ str) = elim (x == percent && y == k) [
  | true ↦ 1 + count_marker k str
  | false ↦ count_marker k (y ∷ str)
]

-- _add_acl_pattern
unfoldable pub add_acl_pattern : AclDb → List ℕ → ℕ → AclDb
add_acl_pattern db topic access =
    let acl : Acl = record {
      topic = topic;
      access = access;
      ucount = count_marker letter_u topic;
      ccount = count_marker letter_c topic;
    } in
    record db { acl_patterns = db.acl_patterns ++ (acl ∷ []) }

-- The loop that writes the pattern with the client's id and user name in the place of %c and %u.
unfoldable pub substitute : List ℕ → Option (List ℕ) → List ℕ → List ℕ
substitute id user [] = []
substitute id user (x ∷ []) = x ∷ []
substitute id user (x ∷ y ∷ str) = elim (x == percent && y == letter_c) [
  | true ↦ id ++ substitute id user str
  | false ↦ elim user [
    | none ↦ x ∷ substitute id none (y ∷ str)
    | some name ↦ elim (x == percent && y == letter_u) [
      | true ↦ name ++ substitute id (some name) str
      | false ↦ x ∷ substitute id (some name) (y ∷ str)
    ]
  ]
]

-- The length of the result as it is computed for malloc, with the differences taken last.
unfoldable pub local_length : List ℕ → Option (List ℕ) → Acl → ℕ
local_length id none acl = length acl.topic + acl.ccount * length id - acl.ccount * 2
local_length id (some name) acl =
    length acl.topic
    + acl.ccount * length id
    + acl.ucount * length name
    - (acl.ccount * 2 + acl.ucount * 2)

-- The buffer: `none` where the loop does not write exactly the bytes before the last one, so that
-- it writes outside or leaves some unset.
unfoldable pub local_acl : List ℕ → Option (List ℕ) → Acl → Option (List ℕ)
local_acl id user acl =
    let str = substitute id user acl.topic in
    if length str == local_length id user acl then some str else none

-- The variable `result`, which is not set before the first call of mosquitto_topic_matches_sub and
-- not by every call; and whether the loop ends with success.
pub data Verdict : Type 0 where
  fault allowed : Verdict
  goes_on : Option Bool → Verdict

-- One entry, after the filter is known.
unfoldable pub try_filter : List ℕ → List ℕ → ℕ → ℕ → Option Bool → Verdict
try_filter filter topic access granted result =
    let set = (topic_matches_sub (some filter) (some topic) true).1 in
    let now : Option Bool = elim set [ none ↦ result | some b ↦ some b ] in
    elim now [
      | none ↦ fault
      | some matches ↦
          if matches && not (bit_and access granted == 0) then allowed else goes_on (some matches)
    ]

-- The loop through the entries of the client.
unfoldable pub user_loop : List ℕ → ℕ → List Acl → Option Bool → Verdict
user_loop topic access [] result = goes_on result
user_loop topic access (a ∷ acls) result =
    elim (char0 topic == dollar && not (char0 a.topic == dollar)) [
      | true ↦ user_loop topic access acls result
      | false ↦ elim (try_filter a.topic topic access a.access result) [
        | fault ↦ fault
        | allowed ↦ allowed
        | goes_on result' ↦ user_loop topic access acls result'
      ]
    ]

-- The loop through the patterns.
unfoldable pub pattern_loop :
    List ℕ → Option (List ℕ) → List ℕ → ℕ → List Acl → Option Bool → Verdict
pattern_loop id user topic access [] result = goes_on result
pattern_loop id user topic access (a ∷ acls) result =
    elim (not (a.ucount == 0) && not (is_some user)) [
      | true ↦ pattern_loop id user topic access acls result
      | false ↦ elim (local_acl id user a) [
        | none ↦ fault
        | some filter ↦ elim (try_filter filter topic access a.access result) [
          | fault ↦ fault
          | allowed ↦ allowed
          | goes_on result' ↦ pattern_loop id user topic access acls result'
        ]
      ]
    ]

abbrev pub is_empty {ℓ} : {A : Type ℓ} → List A → Bool
is_empty [] = true
is_empty (x ∷ xs) = false

abbrev pub entries : Option (List Acl) → List Acl
entries none = []
entries (some acls) = acls

-- mosquitto_acl_check_default for a client with an id; `none` is a fault
unfoldable pub acl_check_default : AclDb → List ℕ → AclClient → List ℕ → ℕ → Option ℕ
acl_check_default db id c topic access =
    if is_empty db.acl_list && is_empty db.acl_patterns
    then some err_success
    else if is_some c.bridge
    then some err_success
    else if not (is_some c.acl_list) && is_empty db.acl_patterns
    then some err_acl_denied
    else elim (user_loop topic access (entries c.acl_list) none) [
      | fault ↦ none
      | allowed ↦ some err_success
      | goes_on result ↦ elim (pattern_loop id c.username topic access db.acl_patterns result) [
        | fault ↦ none
        | allowed ↦ some err_success
        | goes_on result' ↦ some err_acl_denied
      ]
    ]

-- The acl_check of a plugin: the client's id, its user name, the topic and the access.
abbrev pub Plugin : Type 0
Plugin = List ℕ → Option (List ℕ) → List ℕ → ℕ → ℕ

abbrev pub plugin_username : AclClient → Option (List ℕ)
plugin_username c = elim c.bridge [ none ↦ c.username | some local_username ↦ local_username ]

-- mosquitto_acl_check
unfoldable pub acl_check : Option Plugin → AclDb → AclClient → List ℕ → ℕ → Option ℕ
acl_check plugin db c topic access = elim c.id [
  | none ↦ some err_acl_denied
  | some id ↦ elim plugin [
    | none ↦ acl_check_default db id c topic access
    | some check ↦ some (check id (plugin_username c) topic access)
  ]
]
