-- ===== src/Notes.antt =====
-- Live notes: web/src/modules/notes/components/note-view.tsx.
pub mod Color
pub mod Blocks
pub mod Sync
pub mod Presence
pub mod Live
pub mod Tests
mod PresenceTests
mod LiveTests
mod ContentTests
mod ConcurrentTests
