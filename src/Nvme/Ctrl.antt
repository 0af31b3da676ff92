-- ===== src/Nvme/Ctrl.antt =====
-- The controller of src/nvme/core.c: its registers and their fields, the registry of controllers, the
-- configuration of queues and the commands that create and delete them.
mod Tests
pub mod Fields
pub mod Ready
pub mod Enable
pub mod Registry
pub mod Queues
pub mod Submission
pub mod Admin
pub mod Start
