-- ===== src/Init.antt =====
-- The start of src/mp.c: `mp_init` and `mp_finalize`.
pub mod Settings
pub mod Verbs
pub mod Connect
pub mod Shared
pub mod Start
pub mod Failures
pub mod Queues
pub mod Ready
pub mod Opened
pub mod Whole
pub mod Slots
