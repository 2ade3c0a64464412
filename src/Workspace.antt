-- ===== src/Workspace.antt =====
-- Workspaces: web/src/modules/workspace.
pub mod Slug
pub mod Members
pub mod Queries
pub mod Mutations
pub mod Prefetch
pub mod Page
pub mod Invite
pub mod Navigation
mod Tests
mod MemberTests
mod MutationTests
mod PrefetchTests
