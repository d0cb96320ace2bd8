-- ===== src/Access/User/Texts.antt =====
-- src/domain/user.rs: the texts of the instance role.
use soika.Base.{◌≡◌, ◌↔◌, ◌⊎◌, arith, true}
use soika.Base.Text.{Str, codes, str_eq_iff}
use soika.Base.Result.{ok}
use soika.Access.User.{
  InstanceRole, owner, manager, member, as_str, from_str, from_db, can_manage_instance,
}

-- A text reads as an instance role just when it is the text of that role; then the database reads
-- it as the same role. The database grants the instance's management to `owner` and `manager` only.
pub instance_role_texts :
    (s : Str) (r : InstanceRole)
    → ((from_str s ≡ ok r) ↔ (s ≡ as_str r))
      × (s ≡ as_str r → from_db s ≡ r)
      × ((can_manage_instance (from_db s) ≡ true) ↔ ((s ≡ codes "owner") ⊎ (s ≡ codes "manager")))
unfolding from_str as_str from_db can_manage_instance
instance_role_texts s owner = ground (
  arith,
  str_eq_iff s (codes "owner"),
  str_eq_iff s (codes "manager"),
  str_eq_iff s (codes "member"),
)
instance_role_texts s manager = ground (
  arith,
  str_eq_iff s (codes "owner"),
  str_eq_iff s (codes "manager"),
  str_eq_iff s (codes "member"),
)
instance_role_texts s member = ground (
  arith,
  str_eq_iff s (codes "owner"),
  str_eq_iff s (codes "manager"),
  str_eq_iff s (codes "member"),
)
