-- ===== src/Tree/Reach.antt =====
-- The trees that the broker can come to: from the one that mqtt3_db_open makes, by subscribing,
-- unsubscribing, publishing and cleaning sessions.
use kocom.Prelude.{ℕ, ◌≡◌, refl, true, Option, none, some, List, [], ◌∷◌}
use kocom.Topic.Levels.{levels, levels_ok, is_plain}
use kocom.Tree.{Hier, null, hier, Subscriber, find_child}
use kocom.Tree.Change.{mqtt3_sub_add, mqtt3_sub_remove}
use kocom.Tree.Paths.{IsUnique}
use kocom.Tree.Adding.{mqtt3_sub_add-IsUnique}
use kocom.Tree.Removing.{mqtt3_sub_remove-IsUnique}
use kocom.Tree.Walk.{IsTidy}
use kocom.Tree.Tidy.{mqtt3_sub_add-IsTidy, mqtt3_sub_remove-IsTidy}
use kocom.Tree.Queue.{Settings, Publication, World, messages_queue}
use kocom.Tree.Clean.{subs_clean_session}
use kocom.Tree.Sound.{subs_clean_session-Sound}
use kocom.Tree.Shape.{messages_queue-IsUnique, messages_queue-IsTidy}

-- The children of the root in mqtt3_db_open: "" and "$SYS".
abbrev pub initial_root : Hier
initial_root = hier [] [] none null (hier (36 ∷ 83 ∷ 89 ∷ 83 ∷ []) [] none null null)

-- Filters are well formed and topics have no wildcards, which the handlers check before.
pub data IsReachable : Hier → Type 0 where
  opens : IsReachable initial_root
  subscribes :
      (ids : ℕ → Option (List ℕ)) (c : Option Subscriber) (sub : List ℕ) (qos : ℕ) {root : Hier}
      → levels_ok (levels sub) ≡ true
      → IsReachable root
      → IsReachable (mqtt3_sub_add ids c sub qos root).1
  unsubscribes :
      (c : Subscriber) (sub : List ℕ) {root : Hier}
      → IsReachable root
      → IsReachable (mqtt3_sub_remove c sub root).1
  publishes :
      (settings : Settings) (p : Publication) (w : World) {root : Hier}
      → is_plain p.topic ≡ true
      → IsReachable root
      → IsReachable (messages_queue settings p root w).0
  cleans :
      (c c' : Subscriber) {root root' : Hier}
      → subs_clean_session c root ≡ some (c', root')
      → IsReachable root
      → IsReachable root'

-- In every tree that comes from that of mqtt3_db_open by any sequence of subscribing with well-formed
-- filters, unsubscribing with any, publishing on topics without wildcards, and cleaning the session of
-- any client with any entries, whatever else is given and whatever fails on the way, elements with one
-- parent differ in their topics and nothing is below a #.
pub IsReachable-tree : (root : Hier) → IsReachable root → IsUnique root × IsTidy root
IsReachable-tree root opens = (
  unfold IsUnique find_child in (refl, tt, (refl, tt, tt)),
  unfold IsTidy in (refl, tt, (refl, tt, tt)),
)
IsReachable-tree root (subscribes ids c sub qos ok before) =
    let (u, t) = IsReachable-tree _ before in
    (mqtt3_sub_add-IsUnique ids c sub qos _ u, mqtt3_sub_add-IsTidy ids c sub qos _ ok t)
IsReachable-tree root (unsubscribes c sub before) =
    let (u, t) = IsReachable-tree _ before in
    (mqtt3_sub_remove-IsUnique c sub _ u, mqtt3_sub_remove-IsTidy c sub _ t)
IsReachable-tree root (publishes settings p w plain before) =
    let (u, t) = IsReachable-tree _ before in
    (messages_queue-IsUnique settings p _ w u, messages_queue-IsTidy settings p _ w plain t)
IsReachable-tree root (cleans c c' {root = before_root} e before) =
    subs_clean_session-Sound c c' before_root root e (IsReachable-tree before_root before)
