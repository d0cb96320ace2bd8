-- ===== src/Grouping/Stacktrace/Tests.antt =====
-- An event with an exception, as a tree of JSON values.
use soika.Base.{◌≡◌, refl, true, Option, none, some, List, [], ◌∷◌, if◌then◌else◌}
use soika.Base.Text.{Str, codes, str_eq, trim, trim_by, trim_start_by}
use soika.Grouping.Stacktrace.{
  Json, Frame, Stacktrace, ExceptionValue, last, parse_exceptions, stacktrace_field, stacktrace_of,
  parse_frame, string_field, int_field, string_array, non_empty,
}

data Node : Type 0 where
  root exception values item stacktrace frames frame function : Node

-- The member of a value under a key.
abbrev member : Node → Str → Option Node
member root key = if str_eq key (codes "exception") then some exception else none
member exception key = if str_eq key (codes "values") then some values else none
member item key = if str_eq key (codes "stacktrace") then some stacktrace else none
member stacktrace key = if str_eq key (codes "frames") then some frames else none
member frame key = if str_eq key (codes "function") then some function else none
member _ key = none

abbrev items : Node → Option (List Node)
items values = some (item ∷ [])
items frames = some (frame ∷ [])
items _ = none

abbrev text : Node → Option Str
text function = some (codes " handle ")
text _ = none

abbrev json : Json
json = record {
  Value = Node;
  get = member;
  as_str = text;
  as_array = items;
  as_bool = λ v. none;
  as_i64 = λ v. none;
  as_f64 = λ v. none;
  is_object = λ v. true;
  parse_i64 = λ s. none;
}

abbrev handle : Frame
handle = record {
  module_name = none;
  function = some (codes "handle");
  filename = none;
  abs_path = none;
  lineno = none;
  colno = none;
  in_app = none;
  context_line = none;
  pre_context = [];
  post_context = [];
}

abbrev trace : Stacktrace
trace = record { frames = handle ∷ [] }

abbrev thrown : ExceptionValue
thrown = record { ty = none; value = none; module_name = none; stacktrace = some trace }

last_is : last (parse_exceptions json root) ≡ some thrown
unfolding parse_exceptions stacktrace_field stacktrace_of parse_frame string_field int_field
    string_array non_empty str_eq trim trim_by trim_start_by
last_is = refl
