-- ===== src/Tree.antt =====
-- The broker's tree of subscriptions: src/subs.c, with the structures _mosquitto_subhier and
-- _mosquitto_subleaf of src/mosquitto_broker.h. Allocations are taken to succeed, and the counters
-- of $SYS are left out.
pub mod Change
pub mod Paths
pub mod Tokens
pub mod Adding
pub mod Removing
pub mod Search
pub mod Walk
pub mod Queue
pub mod Tidy
pub mod Meaning
pub mod Whole
pub mod Barred
pub mod Shape
pub mod Sound
pub mod Reach
pub mod Clean
pub mod Retained
pub mod Offers
use kocom.Prelude.{
  ℕ, Bool, true, false, ◌&&◌, Option, none, some, List, [], ◌∷◌, ◌++◌, ◌==◌, text_eq, if◌then◌else◌,
}
use kocom.Topic.{slash, dollar}
use kocom.Broker.{Context}

-- struct _mosquitto_subleaf: the address of a client, which is never NULL in the tree.
pub record Leaf : Type 0 where
  pub context : ℕ
  pub qos : ℕ

-- A list of struct _mosquitto_subhier that is linked by `next`: its first element's topic, leaves,
-- retained message (an address) and children, then the elements behind it.
pub data Hier : Type 0 where
  null : Hier
  hier : List ℕ → List Leaf → Option ℕ → Hier → Hier → Hier

-- What an element holds apart from its topic and its place.
pub record Node : Type 0 where
  pub subs : List Leaf
  pub retained : Option ℕ
  pub children : Hier

-- What the functions use of a client. The pointers in context->subs are the topics on the way from
-- the root to the element; one that has been set to NULL is `none`.
pub record Subscriber : Type 0 where
  pub addr : ℕ
  pub mqtt31 : Bool
  pub is_bridge : Bool
  pub last_mid : ℕ
  pub subs : List (Option (List (List ℕ)))
  pub context : Context

-- The loop of _sub_topic_tokenise, with the characters from `start` on.
unfoldable pub split_loop : List ℕ → List ℕ → List (List ℕ)
split_loop token [] = token ∷ []
split_loop token (c ∷ str) = elim (c == slash) [
  | true ↦ token ∷ split_loop [] str
  | false ↦ split_loop (token ++ (c ∷ [])) str
]

-- _sub_topic_tokenise
abbrev pub starts_with : ℕ → List ℕ → Bool
starts_with c [] = false
starts_with c (d ∷ str) = d == c

unfoldable pub after_slash : List ℕ → List (List ℕ)
unfolding split_loop
after_slash [] = split_loop [] []
after_slash (c ∷ str) = if c == slash then [] ∷ split_loop [] str else split_loop [] (c ∷ str)

unfoldable pub tokenise : List ℕ → List (List ℕ)
tokenise sub = if starts_with dollar sub then after_slash sub else [] ∷ after_slash sub

-- The loops over the children that look for a topic: what is found, writing to what is found, adding
-- at the end, and unlinking.
unfoldable pub find_child : List ℕ → Hier → Option Node
find_child t null = none
find_child t (hier u s r ch next) =
    let rest = find_child t next in
    if text_eq u t then some (record { subs = s; retained = r; children = ch }) else rest

unfoldable pub set_child : List ℕ → Node → Hier → Hier
set_child t n null = null
set_child t n (hier u s r ch next) =
    let rest = set_child t n next in
    if text_eq u t then hier u n.subs n.retained n.children next else hier u s r ch rest

unfoldable pub append_child : Hier → List ℕ → Node → Hier
append_child null t n = hier t n.subs n.retained n.children null
append_child (hier u s r ch next) t n = hier u s r ch (append_child next t n)

unfoldable pub unlink_child : List ℕ → Hier → Hier
unlink_child t null = null
unlink_child t (hier u s r ch next) =
    let rest = unlink_child t next in if text_eq u t then next else hier u s r ch rest

-- calloc
abbrev pub empty_node : Node
empty_node = record { subs = []; retained = none; children = null }

abbrev pub is_nobody : List Leaf → Bool
is_nobody [] = true
is_nobody (l ∷ ls) = false

abbrev pub is_null : Hier → Bool
is_null null = true
is_null (hier u s r ch next) = false

abbrev pub is_none {ℓ} : {A : Type ℓ} → Option A → Bool
is_none none = true
is_none (some a) = false

-- !branch->children && !branch->subs && !branch->retained
unfoldable pub is_unused : Node → Bool
is_unused n = is_null n.children && is_nobody n.subs && is_none n.retained
