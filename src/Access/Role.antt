-- ===== src/Access/Role.antt =====
-- src/domain/membership.rs: the effective role on a project, which is computed and not stored.
use soika.Base.{◌++◌, if◌then◌else◌}
use soika.Base.Text.{Str, codes, str_eq}
use soika.Base.Result.{Result, ok, err}
use soika.Errors.{Error, validation}

pub data Role : Type 0 where
  admin member : Role

unfoldable pub as_str : Role → Str
as_str admin = codes "admin"
as_str member = codes "member"

unfoldable pub from_str : Str → Result Error Role
from_str s =
    if str_eq s (codes "admin")
    then ok admin
    else if str_eq s (codes "member")
    then ok member
    else err (validation (codes "invalid role: " ++ s))
