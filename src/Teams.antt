-- ===== src/Teams.antt =====
-- apps/client/src/features/teams: what is sent to the server when the members of a team change.
pub mod Checks
pub mod Record
pub mod Removal
pub mod Joining
pub mod Creation
