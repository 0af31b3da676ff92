-- ===== src/Nvme.antt =====
-- src/nvme and include/vfn/nvme: commands, queues, request trackers and the controller.
pub mod Cmd
pub mod Queue
pub mod Prp
pub mod Sgl
pub mod Rq
pub mod Sync
pub mod Ctrl
