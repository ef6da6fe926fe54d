-- ===== src/Scim.antt =====
-- The SCIM directory, api/services/scim_groups.py and api/services/scim_directory.py.
pub mod Records
pub mod Graph
pub mod Payload
pub mod Patch
pub mod Users
pub mod Groups
pub mod Identity
