-- ===== src/Notifications/Lifecycle/Reachable.antt =====
-- src/alertmanager.rs: all sequences of notifications and refreshes, whatever fails in them.
use soika.Base.{◌≡◌, sym, ap, ◌∙◌, true, false, none, some, List, []}
use soika.Base.Text.{Str}
use soika.Issues.Types.{Uuid, Issue}
use soika.Access.Projects.{Project}
use soika.Notifications.Lifecycle.{Identity, World}
use soika.Notifications.Lifecycle.Steps.{Reads, notify, refresh}
use soika.Notifications.Lifecycle.Tracking.{fires, IsTracked, IsSound, Post-IsSound}
use soika.Notifications.Lifecycle.Kept.{notify-Triple}
use soika.Notifications.Lifecycle.Refreshed.{refresh-Triple}

-- The worlds that the program reaches from an empty table and a receiver that knows nothing. What an
-- operation reads may differ from one to the next.
pub data Reach : World → Type 0 where
  start : (w : World) → ((issue_id : Uuid) → w.rows issue_id ≡ none) → w.received ≡ [] → Reach w
  notified :
      (r : Reads) (project : Project) (issue : Issue) (trigger : Str) (w : World)
      → Reach w
      → Reach (notify r project issue trigger w).0
  refreshed : (r : Reads) (active : List Uuid) (w : World) → Reach w → Reach (refresh r active w).0

Reach-IsSound : (w : World) → Reach w → IsSound w
unfolding fires
Reach-IsSound w (start _ empty silent) = (
  λ issue_id a e. let no : none ≡ some a = sym (empty issue_id) ∙ e in cc,
  λ i f. let no : false ≡ true = sym (ap (fires i) silent) ∙ f in cc,
)
Reach-IsSound _ (notified r project issue trigger w reach) =
    Post-IsSound (notify r project issue trigger w).0 (notify r project issue trigger w).1
      (notify-Triple r project issue trigger w (Reach-IsSound w reach))
Reach-IsSound _ (refreshed r active w reach) =
    Post-IsSound (refresh r active w).0 (refresh r active w).1
      (refresh-Triple r active w (Reach-IsSound w reach))

-- In every world that is reached, each alert that the receiver shows as firing is the alert of a row
-- of the table, so a later refresh can resolve it. This holds whichever sends and writes failed, and
-- also where a send arrived whose answer was lost.
pub Reach-IsTracked :
    (w : World) → Reach w → (i : Identity) → fires i w.received ≡ true → IsTracked i w
Reach-IsTracked w reach = (Reach-IsSound w reach).1
