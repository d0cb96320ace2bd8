-- ===== src/Grouping/Stacktrace.antt =====
-- src/domain/stacktrace.rs: the parts of an event that grouping and display read, out of its JSON.
-- JSON values belong to the library `serde_json` and are an interface here.
pub mod Resolve
mod Tests
use soika.Base.{
  ℕ, Bool, true, false, ◌||◌, ◌&&◌, not, Option, none, some, List, [], ◌∷◌, ◌++◌, map, is_empty,
  if◌then◌else◌,
}
use mathlib.Core.List.{reverse}
use soika.Base.Int.{ℤ}
use soika.Base.Text.{Str, codes, trim}

-- What the code calls of a `Value`. `as_f64` comes with the conversion to `i64`, `parse` is that of
-- `i64`.
pub record Json : Type 1 where
  pub Value : Type 0
  pub get : Value → Str → Option Value
  pub as_str : Value → Option Str
  pub as_array : Value → Option (List Value)
  pub as_bool : Value → Option Bool
  pub as_i64 : Value → Option ℤ
  pub as_f64 : Value → Option ℤ
  pub is_object : Value → Bool
  pub parse_i64 : Str → Option ℤ

pub record Frame : Type 0 where
  pub module_name : Option Str
  pub function : Option Str
  pub filename : Option Str
  pub abs_path : Option Str
  pub lineno : Option ℤ
  pub colno : Option ℤ
  pub in_app : Option Bool
  pub context_line : Option Str
  pub pre_context : List Str
  pub post_context : List Str

pub record Stacktrace : Type 0 where
  pub frames : List Frame

pub record ExceptionValue : Type 0 where
  pub ty : Option Str
  pub value : Option Str
  pub module_name : Option Str
  pub stacktrace : Option Stacktrace

pub record NormalizedEvent : Type 0 where
  pub exception_type : Option Str
  pub exception_value : Option Str
  pub message : Option Str
  pub level : Option Str
  pub stacktrace : Option Stacktrace
  pub fingerprint : List Str

-- `and_then`, `or_else`, `filter` of a text that is not empty, and `filter_map`.
infixl 5 ◌>>?◌
abbrev pub ◌>>?◌ : {A : Type 0} {B : Type 0} → Option A → (A → Option B) → Option B
none >>? f = none
some a >>? f = f a

abbrev pub or_else : {A : Type 0} → Option A → Option A → Option A
or_else none other = other
or_else (some a) other = some a

abbrev pub filter_non_empty : Option Str → Option Str
filter_non_empty none = none
filter_non_empty (some s) = if is_empty s then none else some s

abbrev pub push_some : {B : Type 0} → Option B → List B → List B
push_some none ys = ys
push_some (some y) ys = y ∷ ys

abbrev pub filter_map : {A : Type 0} {B : Type 0} → (A → Option B) → List A → List B
filter_map f [] = []
filter_map f (x ∷ xs) = push_some (f x) (filter_map f xs)

abbrev pub find : {A : Type 0} → (A → Bool) → List A → Option A
find p [] = none
find p (x ∷ xs) = let rest = find p xs in if p x then some x else rest

abbrev pub last : {A : Type 0} → List A → Option A
last [] = none
last (x ∷ xs) = or_else (last xs) (some x)

unfoldable pub is_in_app : Frame → Bool
is_in_app frame = elim frame.in_app [ none ↦ false | some b ↦ b ]

unfoldable pub in_app_frames : Stacktrace → List Frame
unfolding is_in_app
in_app_frames st = filter_map (λ f. if is_in_app f then some f else none) st.frames

unfoldable pub most_relevant_frame : Stacktrace → Option Frame
unfolding is_in_app
most_relevant_frame st = or_else (find is_in_app (reverse st.frames)) (last st.frames)

unfoldable pub display_file : Frame → Option Str
display_file f = or_else (filter_non_empty f.filename) (filter_non_empty f.abs_path)

-- `show` is the text of a number.
unfoldable pub location : (ℤ → Str) → Frame → Option Str
unfolding display_file
location show f = elim (filter_non_empty f.function) [
  | some function ↦ elim (filter_non_empty f.module_name) [
    | some name ↦ some (name ++ (codes " in " ++ function))
    | none ↦ elim (display_file f) [
      | some file ↦ some (file ++ (codes " in " ++ function))
      | none ↦ some function
    ]
  ]
  | none ↦ elim (display_file f) [
    | some file ↦ elim f.lineno [
      | some line ↦ some (file ++ (codes ":" ++ show line))
      | none ↦ some file
    ]
    | none ↦ filter_non_empty f.module_name
  ]
]

-- `Stacktrace::is_empty`.
unfoldable pub has_no_frames : Stacktrace → Bool
has_no_frames st = is_empty st.frames

unfoldable pub non_empty : Str → Option Str
non_empty s = let trimmed = trim s in if is_empty trimmed then none else some trimmed

-- A stacktrace that has frames.
abbrev pub with_frames : Option Stacktrace → Option Stacktrace
with_frames none = none
with_frames (some st) = if is_empty st.frames then none else some st

abbrev or_none : {A : Type 0} → Option (List A) → List A
or_none none = []
or_none (some items) = items

module _ (json : Json) where
  unfoldable pub string_field : json.Value → Str → Option Str
  unfolding non_empty
  string_field value key = json.get value key >>? json.as_str >>? non_empty

  unfoldable pub int_field : json.Value → Str → Option ℤ
  int_field value key = json.get value key >>? λ v.
      or_else (json.as_i64 v)
        (or_else (json.as_f64 v) (json.as_str v >>? λ s. json.parse_i64 (trim s)))

  unfoldable pub string_array : json.Value → Str → List Str
  string_array value key = filter_map json.as_str (or_none (json.get value key >>? json.as_array))

  unfoldable pub parse_frame : json.Value → Frame
  unfolding string_field int_field string_array
  parse_frame value = record {
    module_name = string_field value (codes "module");
    function = string_field value (codes "function");
    filename = string_field value (codes "filename");
    abs_path = string_field value (codes "abs_path");
    lineno = int_field value (codes "lineno");
    colno = int_field value (codes "colno");
    in_app = json.get value (codes "in_app") >>? json.as_bool;
    context_line = string_field value (codes "context_line");
    pre_context = string_array value (codes "pre_context");
    post_context = string_array value (codes "post_context");
  }

  -- `Stacktrace::from_value`.
  unfoldable pub stacktrace_of : json.Value → Stacktrace
  unfolding parse_frame
  stacktrace_of value = record {
    frames = map parse_frame (or_none (json.get value (codes "frames") >>? json.as_array));
  }

  -- The stacktrace of a value that has one, as an object.
  unfoldable pub stacktrace_field : json.Value → Option Stacktrace
  unfolding stacktrace_of
  stacktrace_field value = json.get value (codes "stacktrace") >>? λ s.
      if json.is_object s then some (stacktrace_of s) else none

  unfoldable pub parse_exceptions : json.Value → List ExceptionValue
  unfolding string_field stacktrace_field
  parse_exceptions event =
      map
        (λ v. record {
          ty = string_field v (codes "type");
          value = string_field v (codes "value");
          module_name = string_field v (codes "module");
          stacktrace = stacktrace_field v;
        })
        (or_none (
          json.get event (codes "exception") >>? λ e.
          json.get e (codes "values") >>? json.as_array))

  -- The first stacktrace with frames of some threads.
  unfoldable pub first_thread : List json.Value → Option Stacktrace
  unfolding stacktrace_field
  first_thread [] = none
  first_thread (thread ∷ candidates) =
      or_else (with_frames (stacktrace_field thread)) (first_thread candidates)

  abbrev is_crashed : json.Value → Bool
  is_crashed thread = elim (json.get thread (codes "crashed") >>? json.as_bool) [
    | none ↦ false
    | some b ↦ b
  ]

  abbrev one_or_none : {A : Type 0} → Option A → List A
  one_or_none none = []
  one_or_none (some a) = a ∷ []

  unfoldable pub thread_stacktrace : json.Value → Option Stacktrace
  unfolding first_thread
  thread_stacktrace event =
      json.get event (codes "threads")
      >>? (λ t. json.get t (codes "values"))
      >>? json.as_array
      >>? λ values. first_thread (one_or_none (find is_crashed values) ++ values)

  -- The loop over the exceptions.
  unfoldable pub first_exception : List ExceptionValue → Option Stacktrace
  first_exception [] = none
  first_exception (exc ∷ exceptions) =
      or_else (with_frames exc.stacktrace) (first_exception exceptions)

  unfoldable pub resolve_stacktrace : json.Value → List ExceptionValue → Option Stacktrace
  unfolding first_exception thread_stacktrace stacktrace_field
  resolve_stacktrace event exceptions =
      or_else (with_frames (last exceptions >>? λ e. e.stacktrace)) (
        or_else (first_exception exceptions)
          (or_else (with_frames (thread_stacktrace event)) (with_frames (stacktrace_field event))))

  unfoldable pub message_object : json.Value → Option Str
  unfolding non_empty
  message_object value =
      or_else (json.get value (codes "formatted") >>? json.as_str >>? non_empty)
        (json.get value (codes "message") >>? json.as_str >>? non_empty)

  unfoldable pub parse_message : json.Value → Option Str
  unfolding non_empty message_object
  parse_message event =
      let logentry = json.get event (codes "logentry") >>? message_object in
      elim (json.get event (codes "message")) [
        | none ↦ logentry
        | some msg ↦ elim (json.as_str msg) [
          | some s ↦ non_empty s
          | none ↦ or_else (message_object msg) logentry
        ]
      ]

  -- `NormalizedEvent::from_value`.
  unfoldable pub from_value : json.Value → NormalizedEvent
  unfolding parse_exceptions resolve_stacktrace parse_message string_field string_array
  from_value event =
      let exceptions = parse_exceptions event in
      let thrown = last exceptions in
      record {
        exception_type = thrown >>? λ e. e.ty;
        exception_value = thrown >>? λ e. e.value;
        message = parse_message event;
        level = string_field event (codes "level");
        stacktrace = resolve_stacktrace event exceptions;
        fingerprint = string_array event (codes "fingerprint");
      }
