-- ===== src/Session.antt =====
-- src/aisb/api/session.py and src/aisb/insights/snapshot.py: how a session undoes what was done to
-- Docker. Lifecycle has how a session begins and ends, Snapshot compares two snapshots, Undo has the inverses of changes and how one is run,
-- Rollback and Scope run those of a journal on an endpoint and on all of them, Inspect and Capture make the entry
-- of a journal, and Exact, Journal, Laws, Safety and Again have what is proved.
pub mod Snapshot
pub mod Exact
pub mod Undo
pub mod Lifecycle
pub mod Inspect
pub mod Capture
pub mod Journal
pub mod Rollback
pub mod Scope
pub mod Laws
pub mod Foreign
pub mod Safety
pub mod Again
mod Tests
