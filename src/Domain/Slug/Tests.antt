-- ===== src/Domain/Slug/Tests.antt =====
-- Slugs of the source's own tests, and the theorems at them.
use soika.Base.{◌≡◌, ◌↔◌, ◌<◌, ◌≤◌, true, false, refl, arith}
use soika.Base.Text.{Str, codes, contains, starts_with, trim_start_by, trim_by}
use soika.Domain.Slug.{validate_slug, slugify, slug_loop, push_char, ok, err, misplaced_dash}
use soika.Domain.Slug.{slug_max_len}
use soika.Domain.Slug.Shape.{reads, after, validate_slug_iff}
use soika.Domain.Slug.Derive.{slugify_valid}

abbrev random_id : Str
random_id = codes "67e5504410b1426f9247bb680e5fe0c8"

validates : validate_slug (codes "checkout-api") ≡ ok
unfolding validate_slug contains starts_with
validates = refl

rejects : validate_slug (codes "web--api") ≡ err misplaced_dash
unfolding validate_slug contains starts_with
rejects = refl

derives : slugify random_id (codes "  My Cool  Project!") ≡ codes "my-cool-project"
unfolding slugify slug_loop push_char trim_by trim_start_by
derives = refl

falls_back : slugify random_id (codes "!!!") ≡ codes "project-67e55044"
unfolding slugify slug_loop push_char trim_by trim_start_by
falls_back = refl

slugify_valid_example : validate_slug (slugify random_id (codes "a-b--c")) ≡ ok
slugify_valid_example = slugify_valid random_id (codes "a-b--c") (omega arith) refl

validate_slug_iff_example : (validate_slug (codes "a-b") ≡ ok) ↔ (
    (0 < 3)
    × (3 ≤ slug_max_len)
    × (reads true (codes "a-b") ≡ true)
    × (after true (codes "a-b") ≡ false))
validate_slug_iff_example = validate_slug_iff (codes "a-b")
