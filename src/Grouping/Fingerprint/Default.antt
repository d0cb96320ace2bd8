-- ===== src/Grouping/Fingerprint/Default.antt =====
-- src/grouping/fingerprint.rs: what the default fingerprint depends on.
use soika.Base.{◌≡◌, refl, sym, ap, ◌∙◌, false, some, List, [], ◌∷◌, is_empty}
use soika.Base.Text.{Str}
use soika.Grouping.Stacktrace.{
  Frame, Stacktrace, NormalizedEvent, filter_non_empty, filter_map, push_some, in_app_frames,
}
use soika.Grouping.Fingerprint.{
  frame_signature, grouping_frame_signatures, stack_components, default_material,
  default_fingerprint, fingerprint_normalized,
}

-- Two frames with the same module, function and file, whatever their lines and source context.
abbrev pub SameFrame : Frame → Frame → Type 0
SameFrame f g =
    (f.module_name ≡ g.module_name)
    × (f.function ≡ g.function)
    × (f.filename ≡ g.filename)
    × (f.abs_path ≡ g.abs_path)

abbrev pub SameFrames : List Frame → List Frame → Type 0
SameFrames [] [] = Unit {0}
SameFrames (f ∷ fs) (g ∷ gs) = SameFrame f g × SameFrames fs gs
SameFrames _ _ = ⊥

frame_signature_cong : (f g : Frame) → SameFrame f g → frame_signature f ≡ frame_signature g
unfolding frame_signature
frame_signature_cong f g (m, n, file, path) = rw (m, n, file, path)

signatures_cong :
    (fs gs : List Frame)
    → SameFrames fs gs
    → filter_map frame_signature fs ≡ filter_map frame_signature gs
signatures_cong [] [] h = refl
signatures_cong [] (g ∷ gs) h = absurd h
signatures_cong (f ∷ fs) [] h = absurd h
signatures_cong (f ∷ fs) (g ∷ gs) (here, there) =
    ap (λ o. push_some o (filter_map frame_signature fs)) (frame_signature_cong f g here)
    ∙ ap (push_some (frame_signature g)) (signatures_cong fs gs there)

same_emptiness : (fs gs : List Frame) → SameFrames fs gs → is_empty fs ≡ is_empty gs
same_emptiness [] [] h = refl
same_emptiness [] (g ∷ gs) h = absurd h
same_emptiness (f ∷ fs) [] h = absurd h
same_emptiness (f ∷ fs) (g ∷ gs) h = refl

grouping_cong :
    (s t : Stacktrace)
    → is_empty (in_app_frames s) ≡ false
    → SameFrames (in_app_frames s) (in_app_frames t)
    → grouping_frame_signatures s ≡ grouping_frame_signatures t
unfolding grouping_frame_signatures
grouping_cong s t some_frame same = rw (
  some_frame,
  sym (same_emptiness (in_app_frames s) (in_app_frames t) same) ∙ some_frame,
  signatures_cong (in_app_frames s) (in_app_frames t) same,
)

-- Two events without a custom fingerprint that have an exception of the same type, and stacktraces
-- whose in-app frames have pairwise the same module, function and file, at least one each, have the
-- same fingerprint: lines, columns, source context, system frames and messages do not count.
pub fingerprint_normalized_cong :
    (a b : NormalizedEvent) (s t : Stacktrace) (ty : Str)
    → a.fingerprint ≡ []
    → b.fingerprint ≡ []
    → filter_non_empty a.exception_type ≡ some ty
    → filter_non_empty b.exception_type ≡ some ty
    → a.stacktrace ≡ some s
    → b.stacktrace ≡ some t
    → is_empty (in_app_frames s) ≡ false
    → SameFrames (in_app_frames s) (in_app_frames t)
    → fingerprint_normalized a ≡ fingerprint_normalized b
unfolding fingerprint_normalized default_fingerprint default_material stack_components
fingerprint_normalized_cong a b s t ty none_a none_b type_a type_b trace_a trace_b some_frame same =
    rw (none_a, none_b, type_a, type_b, trace_a, trace_b, grouping_cong s t some_frame same)
