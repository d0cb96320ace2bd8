-- ===== src/Access/TeamRole.antt =====
-- src/domain/membership.rs: the role of a user within a team.
use soika.Base.{Bool, true, false, ◌++◌, if◌then◌else◌}
use soika.Base.Text.{Str, codes, str_eq}
use soika.Base.Result.{Result, ok, err}
use soika.Errors.{Error, validation}

pub data TeamRole : Type 0 where
  admin contributor : TeamRole

unfoldable pub as_str : TeamRole → Str
as_str admin = codes "admin"
as_str contributor = codes "contributor"

unfoldable pub from_db : Str → TeamRole
from_db s = if str_eq s (codes "admin") then admin else contributor

unfoldable pub from_str : Str → Result Error TeamRole
from_str s =
    if str_eq s (codes "admin")
    then ok admin
    else if str_eq s (codes "contributor")
    then ok contributor
    else err (validation (codes "invalid team role: " ++ s))

abbrev pub is_admin : TeamRole → Bool
is_admin admin = true
is_admin contributor = false
