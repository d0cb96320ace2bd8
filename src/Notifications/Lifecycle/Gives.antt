-- ===== src/Notifications/Lifecycle/Gives.antt =====
-- What holds of the world after an operation of Notifications/Lifecycle.antt that succeeds.
use soika.Base.{◌≡◌, refl, subst, Bool, true, false, none, some, if◌then◌else◌}
use soika.Base.Result.{ok, err}
use soika.Notifications.Config.{Run, ◌>>=◌}
use soika.Notifications.Lifecycle.{World, Op, ◌>>>◌, continue, run, done}

-- What holds after an operation that succeeds.
abbrev pub Gives : {A : Type 0} → (World → Type 0) → World → Run A → Type 0
Gives Q w (some (ok a)) = Q w
Gives Q w _ = Unit {0}

-- An operation that, from wherever it starts, gives a property.
abbrev pub Always : {A : Type 0} → (World → Type 0) → Op A → Type 0
Always Q m = (w : World) → Gives Q (m w).0 (m w).1

pub continue-Gives :
    {A : Type 0} {B : Type 0} (Q : World → Type 0) (f : A → Op B)
    → ((a : A) → Always Q (f a))
    → (w : World) (r : Run A) → Gives Q (continue w r f).0 (continue w r f).1
continue-Gives Q f h w none = tt
continue-Gives Q f h w (some (err e)) = tt
continue-Gives Q f h w (some (ok a)) = h a w

pub then-Always :
    {A : Type 0} {B : Type 0} (Q : World → Type 0) (m : Op A) (f : A → Op B)
    → ((a : A) → Always Q (f a))
    → Always Q (m >>> f)
then-Always Q m f h w = continue-Gives Q f h (m w).0 (m w).1

pub weaken-Gives :
    {A : Type 0} (Q R : World → Type 0) (w : World) (r : Run A)
    → ((w : World) → Q w → R w)
    → Gives Q w r
    → Gives R w r
weaken-Gives Q R w none f h = tt
weaken-Gives Q R w (some (err e)) f h = tt
weaken-Gives Q R w (some (ok a)) f h = f w h

-- An early return where a test holds.
pub stop_or-Gives :
    (Q : World → Type 0) (b : Bool) (m : Op (Unit {0})) (w : World)
    → (b ≡ true → Q w)
    → (b ≡ false → Gives Q (m w).0 (m w).1)
    → Gives Q ((if b then done tt else m) w).0 ((if b then done tt else m) w).1
stop_or-Gives Q true m w stop go = stop refl
stop_or-Gives Q false m w stop go = go refl

pub run-Gives :
    {A : Type 0} {B : Type 0} (Q : World → Type 0) (r : Run A) (f : A → Op B) (w : World)
    → ((a : A) → r ≡ some (ok a) → Gives Q (f a w).0 (f a w).1)
    → Gives Q (continue w r f).0 (continue w r f).1
run-Gives Q none f w h = tt
run-Gives Q (some (err e)) f w h = tt
run-Gives Q (some (ok a)) f w h = h a refl

-- What the value of a run is like.
abbrev pub Yields : {A : Type 0} → (A → Type 0) → Run A → Type 0
Yields Q (some (ok a)) = Q a
Yields Q _ = Unit {0}

pub bind-Yields :
    {A : Type 0} {B : Type 0} (Q : B → Type 0) (m : Run A) (f : A → Run B)
    → ((a : A) → m ≡ some (ok a) → Yields Q (f a))
    → Yields Q (m >>= f)
bind-Yields Q none f h = tt
bind-Yields Q (some (err e)) f h = tt
bind-Yields Q (some (ok a)) f h = h a refl

pub Yields-value :
    {A : Type 0} (Q : A → Type 0) (m : Run A) (a : A) → Yields Q m → m ≡ some (ok a) → Q a
Yields-value Q m a h e = subst (Yields Q) e h

pub if-Gives :
    (Q : World → Type 0) (b : Bool) (m n : Op (Unit {0})) (w : World)
    → Gives Q (m w).0 (m w).1
    → Gives Q (n w).0 (n w).1
    → Gives Q ((if b then m else n) w).0 ((if b then m else n) w).1
if-Gives Q true m n w h k = h
if-Gives Q false m n w h k = k

pub gives_value :
    (Q : World → Type 0) (w : World) (run : Run (Unit {0}))
    → Gives Q w run
    → run ≡ some (ok tt)
    → Q w
gives_value Q w run h e = subst (Gives Q w) e h
