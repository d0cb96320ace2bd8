-- ===== src/Grouping/Stacktrace/Resolve.antt =====
-- src/domain/stacktrace.rs: the stacktrace that is taken for an event.
use soika.Base.{
  ◌≡◌, refl, subst, Bool, true, false, Option, none, some, List, [], ◌∷◌, is_empty, if◌then◌else◌,
}
use soika.Grouping.Stacktrace.{
  Json, Stacktrace, ExceptionValue, or_else, ◌>>?◌, last, with_frames, stacktrace_field,
  thread_stacktrace, first_exception, resolve_stacktrace, parse_exceptions, from_value,
}

-- If a stacktrace is taken, it has a frame.
abbrev HasFrames : Option Stacktrace → Type 0
HasFrames none = Unit {0}
HasFrames (some st) = is_empty st.frames ≡ false

keep-HasFrames :
    (b : Bool) (st : Stacktrace) → is_empty st.frames ≡ b → HasFrames (if b then none else some st)
keep-HasFrames true st e = tt
keep-HasFrames false st e = e

with_frames-HasFrames : (o : Option Stacktrace) → HasFrames (with_frames o)
with_frames-HasFrames none = tt
with_frames-HasFrames (some st) = keep-HasFrames (is_empty st.frames) st refl

or_else-HasFrames : (o p : Option Stacktrace) → HasFrames o → HasFrames p → HasFrames (or_else o p)
or_else-HasFrames none p h g = g
or_else-HasFrames (some st) p h g = h

first_exception-HasFrames :
    (json : Json) (exceptions : List ExceptionValue) → HasFrames (first_exception json exceptions)
unfolding first_exception
first_exception-HasFrames json [] = tt
first_exception-HasFrames json (exc ∷ exceptions) =
    or_else-HasFrames (with_frames exc.stacktrace) (first_exception json exceptions)
      (with_frames-HasFrames exc.stacktrace) (first_exception-HasFrames json exceptions)

resolve_stacktrace-HasFrames :
    (json : Json) (event : json.Value) (exceptions : List ExceptionValue)
    → HasFrames (resolve_stacktrace json event exceptions)
unfolding resolve_stacktrace
resolve_stacktrace-HasFrames json event exceptions =
    let thrown = last exceptions >>? λ e. e.stacktrace in
    let thread = thread_stacktrace json event in
    let top = stacktrace_field json event in
    let first = first_exception json exceptions in
    let rest = or_else (with_frames thread) (with_frames top) in
    or_else-HasFrames (with_frames thrown) (or_else first rest) (with_frames-HasFrames thrown) (
      or_else-HasFrames first rest (first_exception-HasFrames json exceptions) (
        or_else-HasFrames (with_frames thread) (with_frames top) (with_frames-HasFrames thread)
          (with_frames-HasFrames top)))

-- The stacktrace of a normalized event has a frame, and it is that of the thrown exception wherever
-- that one has a frame.
pub from_value-stacktrace :
    (json : Json) (event : json.Value)
    → ((st : Stacktrace)
        → (from_value json event).stacktrace ≡ some st
        → is_empty st.frames ≡ false)
      × ((thrown : ExceptionValue) (st : Stacktrace)
          → last (parse_exceptions json event) ≡ some thrown
          → thrown.stacktrace ≡ some st
          → is_empty st.frames ≡ false
          → (from_value json event).stacktrace ≡ some st)
unfolding from_value resolve_stacktrace
from_value-stacktrace json event = (
  λ st e. subst HasFrames e (resolve_stacktrace-HasFrames json event (parse_exceptions json event)),
  λ thrown st last_is its_trace some_frame. rw (last_is, its_trace, some_frame) refl,
)
