-- ===== src/Access/User.antt =====
-- src/domain/user.rs: accounts, the instance role, and the rules of single sign-on.
pub mod Texts
use soika.Base.{
  ℕ, Bool, true, false, not, ◌&&◌, ◌||◌, Option, List, ◌∷◌, ◌++◌, if◌then◌else◌, ltb, length,
}
use soika.Base.Text.{Str, codes, str_eq, trim}
use soika.Base.Result.{Result, ok, err}
use soika.Errors.{Error, validation}
use soika.Issues.Types.{Uuid, Timestamp}

abbrev pub min_display_name_len : ℕ
min_display_name_len = 3

unfoldable pub normalize_display_name : Str → Result Error Str
normalize_display_name name =
    let trimmed = trim name in
    if ltb (length trimmed) min_display_name_len
    then err (validation (codes "display name must be at least 3 characters"))
    else ok trimmed

pub data AuthProvider : Type 0 where
  local oidc : AuthProvider

pub data InstanceRole : Type 0 where
  owner manager member : InstanceRole

pub data UserStatus : Type 0 where
  active pending : UserStatus

pub data Locale : Type 0 where
  en ru : Locale

unfoldable pub as_str : InstanceRole → Str
as_str owner = codes "owner"
as_str manager = codes "manager"
as_str member = codes "member"

unfoldable pub from_db : Str → InstanceRole
from_db s =
    if str_eq s (codes "owner")
    then owner
    else if str_eq s (codes "manager")
    then manager
    else member

unfoldable pub from_str : Str → Result Error InstanceRole
from_str s =
    if str_eq s (codes "owner")
    then ok owner
    else if str_eq s (codes "manager")
    then ok manager
    else if str_eq s (codes "member")
    then ok member
    else err (validation (codes "invalid instance role: " ++ s))

unfoldable pub is_owner : InstanceRole → Bool
is_owner owner = true
is_owner manager = false
is_owner member = false

unfoldable pub can_manage_instance : InstanceRole → Bool
can_manage_instance owner = true
can_manage_instance manager = true
can_manage_instance member = false

unfoldable pub provider_as_str : AuthProvider → Str
provider_as_str local = codes "local"
provider_as_str oidc = codes "oidc"

unfoldable pub provider_from_db : Str → AuthProvider
provider_from_db s = if str_eq s (codes "oidc") then oidc else local

unfoldable pub status_as_str : UserStatus → Str
status_as_str active = codes "active"
status_as_str pending = codes "pending"

unfoldable pub status_from_db : Str → UserStatus
status_from_db s = if str_eq s (codes "pending") then pending else active

unfoldable pub locale_as_str : Locale → Str
locale_as_str en = codes "en"
locale_as_str ru = codes "ru"

unfoldable pub locale_from_str : Str → Result Error Locale
locale_from_str s =
    if str_eq s (codes "en")
    then ok en
    else if str_eq s (codes "ru")
    then ok ru
    else err (validation (codes "unsupported locale"))

pub record User : Type 0 where
  pub id : Uuid
  pub email : Str
  pub display_name : Str
  pub password_hash : Str
  pub instance_role : InstanceRole
  pub notifications_enabled : Bool
  pub locale : Option Locale
  pub auth_provider : AuthProvider
  pub status : UserStatus
  pub created_at : Timestamp
  pub updated_at : Timestamp

abbrev pub is_oidc : AuthProvider → Bool
is_oidc local = false
is_oidc oidc = true

unfoldable pub should_convert_to_sso : User → Bool
unfolding is_owner
should_convert_to_sso user = not (is_oidc user.auth_provider) && not (is_owner user.instance_role)

unfoldable pub session_allowed_with_sso : User → Bool
unfolding is_owner
session_allowed_with_sso user = is_oidc user.auth_provider || is_owner user.instance_role
