-- ===== src/Notifications/Lifecycle.antt =====
-- src/alertmanager.rs: the tracked alerts and their delivery, with the table of
-- src/adapters/sqlite/notifications.rs. A world holds the table, what the receiver has taken in, and
-- the outcomes of the sends, the writes and the reads of the table to come. An operation reads the clock once.
pub mod Maps
pub mod Steps
pub mod Tracking
pub mod Kept
pub mod Refreshed
pub mod Reachable
pub mod Gives
pub mod Lease
mod Tests
use soika.Base.{
  ℕ, suc, ◌+◌, Bool, true, false, ◌||◌, ◌&&◌, not, Option, none, some, List, [], ◌∷◌, all,
  if◌then◌else◌, ltb, ◌==◌,
}
use soika.Base.Text.{Str, codes, str_eq}
use soika.Base.Time.{from_secs}
use soika.Base.Dict.{Dict, lookup}
use soika.Base.Result.{Result, ok, err}
use soika.Errors.{Error}
use soika.Issues.Types.{Uuid, Timestamp, Issue, unresolved, status_eq}
use soika.Access.Projects.{Project}
use soika.Notifications.Config.{AlertmanagerConfig, AlertmanagerNames, AlertSeverity, Run}
use soika.Notifications.Config
use soika.Notifications.Alert.{
  AlertmanagerAlert, ActiveAlert, Show, alert_ttl, endpoint, variables, project_config,
  render_alert,
}

-- A send that the caller sees succeed, one that arrives but whose answer is lost, and one that does
-- not arrive.
pub data Outcome : Type 0 where
  delivered : Outcome
  unsure lost : Error → Outcome

-- What tells one alert from another at the receiver.
pub record Identity : Type 0 where
  pub endpoint : Str
  pub labels : Dict Str

abbrev pub identity : ActiveAlert → Identity
identity a = record { endpoint = a.endpoint; labels = a.alert.labels }

-- Equality of maps, whatever the order of their entries.
abbrev pub value_eq : Option Str → Option Str → Bool
value_eq none none = true
value_eq (some s) (some t) = str_eq s t
value_eq _ _ = false

abbrev pub agrees_on : Dict Str → Dict Str → Str × Str → Bool
agrees_on a b (key, value) = value_eq (lookup key a) (lookup key b)

unfoldable pub same_map : Dict Str → Dict Str → Bool
same_map a b = all (agrees_on a b) a && all (agrees_on a b) b

unfoldable pub same_identity : Identity → Identity → Bool
unfolding same_map
same_identity i j = str_eq i.endpoint j.endpoint && same_map i.labels j.labels

-- An alert as the receiver took it: it fires unless its end has come.
pub record Receipt : Type 0 where
  pub identity : Identity
  pub is_firing : Bool

pub record World : Type 0 where
  pub rows : Uuid → Option ActiveAlert
  pub received : List Receipt
  pub sends : ℕ → Outcome
  pub writes : ℕ → Result Error (Unit {0})
  pub finds : ℕ → Result Error (Unit {0})

-- An operation on the world that may fail.
abbrev pub Op : Type 0 → Type 0
Op A = World → World × Run A

abbrev pub continue : {A : Type 0} {B : Type 0} → World → Run A → (A → Op B) → World × Run B
continue w none f = (w, none)
continue w (some (err e)) f = (w, some (err e))
continue w (some (ok a)) f = f a w

infixl 5 ◌>>>◌
abbrev pub ◌>>>◌ : {A : Type 0} {B : Type 0} → Op A → (A → Op B) → Op B
(m >>> f) w = continue (m w).0 (m w).1 f

abbrev pub run : {A : Type 0} → Run A → Op A
run r w = (w, r)

abbrev pub lift : {A : Type 0} → Result Error A → Op A
lift r w = (w, some r)

abbrev pub done : {A : Type 0} → A → Op A
done a w = (w, some (ok a))

-- `find_alert`, `save_alert`, `remove_alert`. A write that fails changes nothing.
abbrev pub next_find : World → World
next_find w = record w { finds = λ n. w.finds (suc n) }

unfoldable pub find_with : Uuid → Result Error (Unit {0}) → Op (Option ActiveAlert)
find_with issue_id (err e) w = (next_find w, some (err e))
find_with issue_id (ok u) w = (next_find w, some (ok (w.rows issue_id)))

unfoldable pub find_alert : Uuid → Op (Option ActiveAlert)
unfolding find_with
find_alert issue_id w = find_with issue_id (w.finds 0) w

abbrev pub put : Uuid → Option ActiveAlert → (Uuid → Option ActiveAlert) → Uuid → Option ActiveAlert
put issue_id row rows id = if id == issue_id then row else rows id

abbrev pub next_write : World → World
next_write w = record w { writes = λ n. w.writes (suc n) }

abbrev pub next_send : World → World
next_send w = record w { sends = λ n. w.sends (suc n) }

unfoldable pub write_with : Uuid → Option ActiveAlert → Result Error (Unit {0}) → Op (Unit {0})
write_with issue_id row (err e) w = (next_write w, some (err e))
write_with issue_id row (ok u) w =
    (record (next_write w) { rows = put issue_id row w.rows }, some (ok tt))

unfoldable pub write_row : Uuid → Option ActiveAlert → Op (Unit {0})
unfolding write_with
write_row issue_id row w = write_with issue_id row (w.writes 0) w

unfoldable pub save_alert : ActiveAlert → Op (Unit {0})
unfolding write_row
save_alert alert = write_row alert.issue_id (some alert)

unfoldable pub remove_alert : Uuid → Op (Unit {0})
unfolding write_row
remove_alert issue_id = write_row issue_id none

-- `send`: the client's call, at a time.
abbrev pub receive : Timestamp → Str → AlertmanagerAlert → List Receipt → List Receipt
receive now endpoint alert received =
    record {
      identity = record { endpoint = endpoint; labels = alert.labels };
      is_firing = ltb now alert.ends_at;
    }
    ∷ received

unfoldable pub send_with : List Receipt → Outcome → Op (Unit {0})
send_with received (lost e) w = (next_send w, some (err e))
send_with received (unsure e) w = (record (next_send w) { received = received }, some (err e))
send_with received delivered w = (record (next_send w) { received = received }, some (ok tt))

unfoldable pub send : Timestamp → Str → AlertmanagerAlert → Op (Unit {0})
unfolding send_with
send now endpoint alert w = send_with (receive now endpoint alert w.received) (w.sends 0) w

unfoldable pub resolve : Timestamp → ActiveAlert → Op (Unit {0})
unfolding send
resolve now active = send now active.endpoint (record active.alert { ends_at = now })

-- The end of `notify` and of `reconcile`: the alert is saved before it is sent.
unfoldable pub publish : Timestamp → ActiveAlert → Op (Unit {0})
unfolding save_alert send
publish now pending = save_alert pending >>> λ saved.
    send now pending.endpoint pending.alert >>> λ sent.
    save_alert (record pending { last_sent_at = some now })
