-- ===== src/Access.antt =====
-- Who may do what: the roles, the projects a user reaches, the members of a team.
pub mod Role
pub mod TeamRole
pub mod User
pub mod Projects
pub mod Members
pub mod Teams
pub mod Invites
mod Tests
