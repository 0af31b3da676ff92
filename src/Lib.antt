-- ===== src/Lib.antt =====
-- A verification of libvfn, a user space library that drives NVMe controllers over VFIO.
--
-- The program and what is modelled of it:
--
--   A command is built in memory (a 64-byte entry), its data pointer is filled by one of the mapping
--   functions, and it goes into a slot of a submission queue, whose tail the controller is told
--   through a doorbell. The controller posts 16-byte entries to a completion queue, which the
--   library polls; a request tracker of the submission queue ties the two together by the command
--   identifier. Memory that the controller reaches is mapped through the IOMMU, and a context keeps
--   the mappings in a skip list.
--
--   Base, Support     shared names and tests on numbers; 64-bit words, C `int`, and
--                     include/vfn/support/align.h (Support/Align)
--   Nvme/Cmd          the data types of include/vfn/nvme/types.h
--   Nvme/Prp          src/nvme/util.c: the cursor over chained PRP lists, nvme_map_prp,
--                     nvme_mapv_prp, nvme_mapv_iova_prp. Prp/Spec says what a controller reads,
--                     Prp/Entries, Prp/Cursor and Prp/Page follow the cursor, Prp/Single is about
--                     one buffer, Prp/Vector has the functions on vectors, Prp/Append is about the
--                     segments behind the first
--   Nvme/Sgl          src/nvme/util.c: nvme_mapv_sgl, nvme_mapv_iova_sgl
--   Nvme/Queue        include/vfn/nvme/queue.h and src/nvme/queue.c. Queue/Doorbell is about the
--                     submission side, Queue/Ring sees the completion queue as a queue of pending
--                     entries (Ring/Post has the controller's side), Queue/Reap and
--                     Queue/Ending are about the reaping loop, Queue/Limit about its time limit,
--                     Queue/Largest about a queue of 65536 entries
--   Nvme/Rq           include/vfn/nvme/rq.h and src/nvme/rq.c, the set-up of the trackers in
--                     src/nvme/core.c, nvme_aer. Rq/Free is about the free list, Rq/Owned
--                     about who holds a tracker, Rq/Wait about waiting for a completion.
--                     Rq/Atomic has the lock-free versions an access of memory at a time, with
--                     any interleaving of calls: Atomic/Safety is about who holds a tracker then
--                     (over Atomic/Invariant and Atomic/Steps),
--                     Atomic/Alone about a call that is not interrupted
--   Nvme/Sync         nvme_sync of src/nvme/util.c, which ties mapping, trackers and queues
--                     together: Sync/Spin is about its loop, Sync/Laws about the call, Sync/Plain
--                     about one without a buffer
--   Nvme/Ctrl         src/nvme/core.c and the fields of src/nvme/types.h (Ctrl/Fields).
--                     Ctrl/Ready waits for the controller, Ctrl/Enable sets it up and resets it,
--                     Ctrl/Registry is the list of controllers, Ctrl/Queues configures completion
--                     queues and discards them, with Queues/Completion and Queues/Discard about
--                     that, Ctrl/Submission does it for submission queues (Submission/Configure is
--                     about it), Ctrl/Admin has the admin queues and the commands that create and
--                     delete queues (Admin/Run is about a command, Admin/Create about the creation),
--                     Ctrl/Start the page size (Start/PageSize) and the doorbell buffers
--                     (Start/Doorbells)
--   Util/Links        the operations of ccan/list/list.h, as an interface with its laws
--   Util/Skiplist     src/util/skiplist.c. Skiplist/Order is about levels as lists of
--                     nodes, Skiplist/Search and Skiplist/Scan about the three searches,
--                     Skiplist/Link, Skiplist/Erase (over Skiplist/Remove) and Skiplist/Clear
--                     about the operations that change the list
--   Iommu/Dma         src/iommu/dma.c over any backend (struct iommu_ctx_ops is a record of
--                     functions on a state of the backend). Dma/Places, Dma/Map and Dma/Remove see the
--                     map as a function of the address, Dma/Translate, Dma/Unmap, Dma/Undo, Dma/Keep,
--                     Dma/Errors and Dma/Reverse are about the calls
--   Iommu/Dmabuf      src/iommu/dmabuf.c and pgmap of src/support/mem.c, over the kernel's mmap as a
--                     parameter; Dmabuf/Laws is about getting a buffer and giving it back
--   Iommu/Same        iommu_alloc_same_iova of src/iommu/dma.c and the initial state of a context in
--                     src/iommu/context.c; Same/Laws is about the allocation
--   Iommu/Reserve     the allocator of I/O addresses in src/iommu/vfio.c. Reserve/Bump takes from the
--                     ranges, Reserve/FreeList gives back (over the sets of bytes of Reserve/Bytes),
--                     Reserve/BestFit takes what was given back, Reserve/Live and Reserve/Run are
--                     about the reservations that are out
--   Iommu/Vfio        the backend vfio_ops of src/iommu/vfio.c, which fills the interface of Iommu/Dma
--                     with the allocator and the kernel's ioctls, a parameter; Vfio/Laws is about a
--                     mapping that the kernel is not asked for
--
-- Conventions: state is passed on and returned; an error is a value (`err` with the errno). Numbers
-- are natural numbers, with the remainder written out where a C word wraps; a C `int` that is
-- shifted is an integer. Arrays are functions of the index. Log output is left out. Where
-- `log_fatal_if` or a NULL pointer ends the program, a definition returns `none`, or `fatal`. What
-- the program reads from outside, a register, the clock or a queue that the controller writes to,
-- is a function of the number of the look at it. The accesses of the lock-free operations are taken
-- in one order that all threads see. A component's Tests module runs it on concrete inputs.
--
-- Fuel: the polling loops of the queues take fuel, since the code polls as long as the controller is
-- silent; as many polls as entries are asked for are enough while they are pending, and a time
-- limit is kept with a poll for each look at the clock until the limit. The loop of nvme_sync takes
-- a round for each entry of another command, and one more. The wait for readiness takes a look for
-- each time that the clock is at most the deadline, and one more; iommu_alloc_same_iova a round for
-- each length of the pages up to 2^47, and one more. The searches of
-- the skip list take fuel for the steps along a level; more than the nodes of level 0 is enough.
--
-- Not modelled: locks, the calls of the kernel (VFIO and iommufd ioctls, sysfs, mmap), the discovery
-- of a controller on the PCI bus, its start and close as a whole and its memory buffer in
-- src/nvme/core.c, ccan, logging and tracing. What the code uses of ccan is a parameter: the lists of
-- ccan/list (Util/Links) and clamp_t of ccan/minmax (Start/PageSize).
pub mod Base
pub mod Support
pub mod Util
pub mod Iommu
pub mod Nvme
