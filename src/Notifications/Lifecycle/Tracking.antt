-- ===== src/Notifications/Lifecycle/Tracking.antt =====
-- src/alertmanager.rs: what fires at the receiver is tracked in the table.
use soika.Base.{
  ◌≡◌, ◌⊎◌, refl, sym, ap, ◌∙◌, arith, Bool, true, false, Option, none, some, List, [], ◌∷◌,
  if◌then◌else◌, ◌==◌, Bool-cases, inl, inr, ==_iff,
}
use soika.Base.Result.{ok, err}
use soika.Issues.Types.{Uuid, Timestamp}
use soika.Notifications.Config.{Run}
use soika.Notifications.Alert.{AlertmanagerAlert, ActiveAlert}
use soika.Notifications.Lifecycle.{
  Identity, identity, Receipt, World, Op, ◌>>>◌, continue, run, put, send, send_with, receive,
  resolve, Outcome, delivered, unsure, lost, same_identity,
}
use soika.Notifications.Lifecycle.Maps.{same_identity_refl, same_identity_cong}

-- Whether an alert fires at the receiver: its newest receipt says so.
unfoldable pub fires : Identity → List Receipt → Bool
fires i [] = false
fires i (r ∷ received) = if same_identity i r.identity then r.is_firing else fires i received

-- A row of the table is the alert's.
abbrev pub IsTracked : Identity → World → Type 0
IsTracked i w =
    (issue_id : Uuid) × (a : ActiveAlert) × (w.rows issue_id ≡ some a)
    × (same_identity i (identity a) ≡ true)

-- A row is stored under its issue, and each alert that fires is tracked.
abbrev pub IsSound : World → Type 0
IsSound w =
    ((issue_id : Uuid) (a : ActiveAlert) → w.rows issue_id ≡ some a → a.issue_id ≡ issue_id)
    × ((i : Identity) → fires i w.received ≡ true → IsTracked i w)

-- What holds after an operation: soundness always, and more if it succeeded.
abbrev pub Post : {A : Type 0} → (A → World → Type 0) → World → Run A → Type 0
Post Q w (some (ok a)) = Q a w
Post Q w _ = IsSound w

abbrev pub Triple : {A : Type 0} → (World → Type 0) → Op A → (A → World → Type 0) → Type 0
Triple P m Q = (w : World) → P w → Post Q (m w).0 (m w).1

abbrev pub Keeps : {A : Type 0} → Op A → Type 0
Keeps m = Triple IsSound m (λ a. IsSound)

pub Post-continue :
    {A : Type 0} {B : Type 0} (Q : A → World → Type 0) (R : B → World → Type 0) (f : A → Op B)
    → ((a : A) → Triple (Q a) (f a) R)
    → (w : World) (r : Run A) → Post Q w r
    → Post R (continue w r f).0 (continue w r f).1
Post-continue Q R f h w none p = p
Post-continue Q R f h w (some (err e)) p = p
Post-continue Q R f h w (some (ok a)) p = h a w p

-- An operation and what comes after it.
pub Triple-then :
    {A : Type 0} {B : Type 0} {P : World → Type 0} (Q : A → World → Type 0) (R : B → World → Type 0)
    (m : Op A) (f : A → Op B)
    → Triple P m Q
    → ((a : A) → Triple (Q a) (f a) R)
    → Triple P (m >>> f) R
Triple-then {A} {B} {P} Q R m f t h w p = Post-continue Q R f h (m w).0 (m w).1 (t w p)

-- A step that leaves the world.
pub run-Triple :
    {A : Type 0} (P : World → Type 0) (r : Run A)
    → ((w : World) → P w → IsSound w)
    → Triple P (run r) (λ a. P)
run-Triple P none h w p = h w p
run-Triple P (some (err e)) h w p = h w p
run-Triple P (some (ok a)) h w p = p

pub if-Triple :
    {A : Type 0} (P : World → Type 0) (Q : A → World → Type 0) (b : Bool) (m n : Op A)
    → (b ≡ true → Triple P m Q)
    → (b ≡ false → Triple P n Q)
    → Triple P (if b then m else n) Q
if-Triple P Q true m n f g = f refl
if-Triple P Q false m n f g = g refl

pub Post-IsSound : {A : Type 0} (w : World) (r : Run A) → Post (λ a. IsSound) w r → IsSound w
Post-IsSound w none p = p
Post-IsSound w (some (err e)) p = p
Post-IsSound w (some (ok a)) p = p

pub fires_cong :
    (i j : Identity) (received : List Receipt)
    → same_identity i j ≡ true
    → fires i received ≡ fires j received
unfolding fires
fires_cong i j [] h = refl
fires_cong i j (r ∷ received) h =
    rw (same_identity_cong i j r.identity h, fires_cong i j received h)

-- The alert's row is in the table.
abbrev pub IsSaved : ActiveAlert → World → Type 0
IsSaved a w = IsSound w × (w.rows a.issue_id ≡ some a)

-- Its row is in the table and it does not fire.
abbrev pub IsResolved : ActiveAlert → World → Type 0
IsResolved a w = IsSaved a w × (fires (identity a) w.received ≡ false)

module _ (now : Timestamp) (a : ActiveAlert) where
  -- A receipt of an alert that is tracked, or that ends.
  receive-IsSound :
      (w : World) (alert : AlertmanagerAlert)
      → IsSaved a w
      → same_identity (record { endpoint = a.endpoint; labels = alert.labels }) (identity a) ≡ true
      → IsSound (record w { received = receive now a.endpoint alert w.received })
  unfolding fires
  receive-IsSound w alert ((keyed, tracked), row) same = (
    keyed,
    λ i f.
        elim (Bool-cases
          (same_identity i (record { endpoint = a.endpoint; labels = alert.labels }))) [
            | inl hit ↦ (
              a.issue_id,
              a,
              row,
              same_identity_cong i (record { endpoint = a.endpoint; labels = alert.labels })
                    (identity a) hit
                  ∙ same,
            )
            | inr miss ↦ tracked i (rw (sym f, fires, miss) refl)
          ],
  )

  send_with-IsSaved :
      (received : List Receipt) (o : Outcome) (w : World)
      → IsSaved a w
      → IsSound (record w { received = received })
      → Post (λ sent. IsSaved a) (send_with received o w).0 (send_with received o w).1
  unfolding send_with
  send_with-IsSaved received (lost e) w (s, row) t = s
  send_with-IsSaved received (unsure e) w (s, row) t = t
  send_with-IsSaved received delivered w (s, row) t = (t, row)

  -- A send of an alert whose row is in the table.
  pub send-IsSaved : Triple (IsSaved a) (send now a.endpoint a.alert) (λ sent. IsSaved a)
  unfolding send
  send-IsSaved w saved =
      send_with-IsSaved (receive now a.endpoint a.alert w.received) (w.sends 0) w saved
        (receive-IsSound w a.alert saved (same_identity_refl (identity a)))

  abbrev ended : AlertmanagerAlert
  ended = record a.alert { ends_at = now }

  receive-ended :
      (received : List Receipt) → fires (identity a) (receive now a.endpoint ended received) ≡ false
  unfolding fires
  receive-ended received = rw (same_identity_refl (identity a)) (ground arith)

  resolve_with-IsResolved :
      (o : Outcome) (w : World)
      → IsSaved a w
      → IsSound (record w { received = receive now a.endpoint ended w.received })
      → Post
          (λ sent. IsResolved a)
          (send_with (receive now a.endpoint ended w.received) o w).0
          (send_with (receive now a.endpoint ended w.received) o w).1
  unfolding send_with
  resolve_with-IsResolved (lost e) w (s, row) t = s
  resolve_with-IsResolved (unsure e) w (s, row) t = t
  resolve_with-IsResolved delivered w (s, row) t = ((t, row), receive-ended w.received)

  pub resolve-IsResolved : Triple (IsSaved a) (resolve now a) (λ resolved. IsResolved a)
  unfolding resolve send
  resolve-IsResolved w saved =
      resolve_with-IsResolved (w.sends 0) w saved
        (receive-IsSound w ended saved (same_identity_refl (identity a)))

-- A row may be replaced by a row that stands for the same alert, or if its alert does not fire.
abbrev pub IsReplaceable : Identity → Uuid → World → Type 0
IsReplaceable j issue_id w =
    IsSound w
    × ((old : ActiveAlert)
        → w.rows issue_id ≡ some old
        → (fires (identity old) w.received ≡ false) ⊎ (same_identity (identity old) j ≡ true))

-- `put`, at the issue and beside it.
pub put_here :
    (issue_id : Uuid) (row : Option ActiveAlert) (rows : Uuid → Option ActiveAlert)
    → put issue_id row rows issue_id ≡ row
put_here issue_id row rows = ground arith

pub put_there :
    (issue_id id : Uuid) (row : Option ActiveAlert) (rows : Uuid → Option ActiveAlert)
    → (id == issue_id) ≡ false
    → put issue_id row rows id ≡ rows id
put_there issue_id id row rows h = ground (arith, h)

pub put-IsSound :
    (p : ActiveAlert) (w : World)
    → IsReplaceable (identity p) p.issue_id w
    → IsSound (record w { rows = put p.issue_id (some p) w.rows })
put-IsSound p w ((keyed, tracked), replaceable) = (
  λ id b e. elim (Bool-cases (id == p.issue_id)) [
    | inl here ↦ ground (arith, here, e)
    | inr there ↦ keyed id b (sym (put_there p.issue_id id (some p) w.rows there) ∙ e)
  ],
  λ i f.
      let (id, b, row, same) = tracked i f in
      elim (Bool-cases (id == p.issue_id)) [
        | inr there ↦ (id, b, put_there p.issue_id id (some p) w.rows there ∙ row, same)
        | inl here ↦ elim (replaceable b (ap w.rows (sym ((==_iff id p.issue_id).0 here)) ∙ row)) [
          | inl silent ↦
              let no : true ≡ false = sym f ∙ fires_cong i (identity b) w.received same ∙ silent in
              cc
          | inr alike ↦ (
            p.issue_id,
            p,
            put_here p.issue_id (some p) w.rows,
            same_identity_cong i (identity b) (identity p) same ∙ alike,
          )
        ]
      ],
)
