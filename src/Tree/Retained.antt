-- ===== src/Tree/Retained.antt =====
-- The retained messages that a new subscription gets: _retain_process, _retain_search and
-- mqtt3_retain_queue of src/subs.c.
use kocom.Prelude.{
  ℕ, ◌+◌, Bool, true, false, not, ◌&&◌, ◌||◌, Option, none, some, List, [], ◌∷◌, ltb, ◌==◌, text_eq,
  if◌then◌else◌,
}
use kocom.Proto.{md_out, err_success, err_acl_denied, err_inval, next_mid}
use kocom.Topic.{plus, hash}
use kocom.Broker.{find_stored}
use kocom.Broker.Admit.{message_insert}
use kocom.Tree.{Hier, null, hier, tokenise, find_child, is_null}
use kocom.Tree.Change.{first_token}
use kocom.Tree.Search.{is_last}
use kocom.Tree.Queue.{Settings, World, find_client, delivered}

-- _retain_process for the client with the address: the code and the state; `none` is a fault. A stored
-- message without a topic is refused by the access check.
unfoldable pub retain_process : Settings → ℕ → ℕ → ℕ → World → Option (ℕ × World)
retain_process settings addr sub_qos retained w = elim (find_client addr w.clients) [
  | none ↦ none
  | some c ↦ elim (find_stored retained w.store) [
    | none ↦ none
    | some s ↦
        let answer : ℕ = elim s.topic [
          | none ↦ err_inval
          | some topic ↦ settings.read_check c topic
        ] in
        let qos = if ltb sub_qos s.qos then sub_qos else s.qos in
        let mid = if qos == 0 then 0 else next_mid c.last_mid in
        let last = if qos == 0 then c.last_mid else mid in
        if answer == err_acl_denied
        then some (err_success, w)
        else if not (answer == err_success)
        then some (answer, w)
        else delivered w c last (
            message_insert settings.mem settings.now settings.limits w.store c.context mid md_out
              qos true retained)
  ]
]

abbrev pub starts_hash : List (List ℕ) → Bool
starts_hash [] = false
starts_hash (t ∷ ts) = text_eq t (hash ∷ [])

module _ {S : Type 0} (process : ℕ → S → S) where
  abbrev pub process_retained : Option ℕ → S → S
  process_retained none s = s
  process_retained (some r) s = process r s

  -- _retain_search: the state, and whether it returns -1. There is a token.
  unfoldable pub retain_search : List (List ℕ) → ℕ → Hier → S → S × Bool
  retain_search tokens level null s = (s, false)
  retain_search [] level (hier t subs r ch next) s = (s, false)
  retain_search (k ∷ ks) level (hier t subs r ch next) s =
      let rest_hash = text_eq k (hash ∷ []) && is_last ks in
      let all = retain_search (k ∷ ks) (level + 1) ch (process_retained r s) in
      let deep = retain_search ks (level + 1) ch s in
      let own = deep.1 || (is_null next && starts_hash ks && ltb 0 level) in
      let hit = not (text_eq t (plus ∷ [])) && (text_eq t k || text_eq k (plus ∷ [])) in
      let s' : S =
        if rest_hash
        then all.0
        else if hit
        then (if is_last ks
            then process_retained r s
            else if own
            then process_retained r deep.0
            else deep.0)
        else s in
      ((retain_search (k ∷ ks) level next s').0, rest_hash)

-- The code of _retain_process is not looked at.
unfoldable pub retain_one : Settings → ℕ → ℕ → ℕ → Option World → Option World
retain_one settings addr sub_qos retained none = none
retain_one settings addr sub_qos retained (some w) =
    elim (retain_process settings addr sub_qos retained w) [ none ↦ none | some (rc, w') ↦ some w' ]

-- mqtt3_retain_queue, which returns MOSQ_ERR_SUCCESS
unfoldable pub retain_queue : Settings → ℕ → List ℕ → ℕ → Hier → World → Option World
retain_queue settings addr sub sub_qos root w =
    let tokens = tokenise sub in
    elim (find_child (first_token tokens) root) [
      | none ↦ some w
      | some child ↦
          (retain_search (retain_one settings addr sub_qos) tokens 0 child.children (some w)).0
    ]
