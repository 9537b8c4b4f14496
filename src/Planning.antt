-- ===== src/Planning.antt =====
-- Planning checkpoints (factory/internal/controlplane/planning.go): the edits of checkpoints, their insertion into
-- a route, and their split into stones and pebbles.
pub mod Keys
pub mod Edits
pub mod Frozen
pub mod History
pub mod Shift
pub mod Split
pub mod Insert
pub mod Replace
pub mod Under
pub mod Pieces
mod Examples
