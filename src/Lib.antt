-- ===== src/Lib.antt =====
-- The user-space buffer and address management of libdrm2, the Haiku port of libdrm.
--
-- The program. A client opens a device of the amdgpu driver, allocates or imports buffer objects,
-- reserves ranges of the GPU's virtual address space for them, maps them for the CPU, and submits
-- commands. The driver is reached through tables of calls (`acc_drm`, `acc_amdgpu`) that are not part
-- of this repository: what a call answers is an argument of the definitions here, and what is assumed
-- of the answers is a hypothesis with a name. The same holds for calloc and realloc. The ioctls of
-- libdrm_common.c go to a driver that the repository has, in stub/, and it is modelled.
--
-- The parts, and the files that model them:
--   Base         the shared names: Boolean tests, arrays as lists, uint32_t and uint64_t arithmetic
--                with its wrap-around written out, ALIGN of amdgpu/util_math.h, error codes, and
--                std::map as a list in the order of its keys.
--   ListHead     amdgpu/util_double_list.h, the doubly linked rings on a heap of nodes. The other
--                modules take a ring as the list that the loop over it visits.
--   VaMgr        amdgpu/amdgpu_vamgr.c, the address manager `amdgpu_bo_va_mgr`: a list of holes, kept
--                from the highest to the lowest. `init`, `subtract_hole`, `find_va` and `free_va` are
--                the functions amdgpu_vamgr_*. The loop of amdgpu_vamgr_find_va is `search_up` or
--                `search_down` with its body in `place`; the loop of amdgpu_vamgr_free_va is
--                `free_loop`, and what follows it `give_back`. VaMgr.Holes has the invariant and the
--                abstract view of a manager, the set of its free addresses; VaMgr.Session is a step
--                relation for any sequence of searches and frees.
--   VaRange      the public calls of the same file, amdgpu_va_range_alloc, _free and _query, on the
--                four managers of a device.
--   HandleTable  amdgpu/handle_table.c, a growing array from handles to pointers.
--   Bo           amdgpu/amdgpu_bo.c, buffer objects on a heap, shared by reference count and found by
--                the tables. Bo.Create, Bo.Share, Bo.Cpu, Bo.VaOp and Bo.Metadata are the calls,
--                Bo.Calls the step relation for any sequence of them, Bo.Sound the invariant of a
--                device. Bo.Driver says what the calls rely on of the driver that makes and closes
--                handles, and Bo.World puts objects and such a driver together.
--   Cs           amdgpu/amdgpu_cs.c, command submission. Cs.State has contexts and semaphores on their
--                heaps; Cs.Semaphore is amdgpu_cs_create_semaphore and its siblings, Cs.Submit
--                amdgpu_cs_submit_one with the chunks that it sends and amdgpu_cs_submit, Cs.Time the
--                timeouts and amdgpu_cs_query_fence_status, Cs.SyncFile the two calls that go through a
--                temporary sync object, Cs.Context amdgpu_cs_ctx_create2, amdgpu_cs_ctx_free and the
--                queries of a context, Cs.Syncobj the calls that only pass on. Cs.Handoff follows a
--                semaphore from its signal to the submission that depends on it, Cs.Batch is about
--                several requests at once, Cs.Release about what a context does with its semaphores
--                at its end.
--   Device       amdgpu/amdgpu_device.c. Device.Ranges is the part of amdgpu_device_initialize_haiku
--                that sets up the four managers, Device.Open the list of devices: `initialize` is
--                amdgpu_device_initialize_haiku, `deinitialize` amdgpu_device_deinitialize, and
--                `unlink` the loop of amdgpu_device_free_internal. Device.Vm is amdgpu/amdgpu_vm.c.
--   Gpu          amdgpu/amdgpu_gpu_info.c. Gpu.Query has the queries with the types of their answers,
--                Gpu.Calls the calls that make one or two, Gpu.Init amdgpu_query_gpu_info_init with
--                each early return, and Gpu.Plan the list of queries that it is compared with.
--   AsicId       amdgpu/amdgpu_asic_id.c. AsicId.Text has what it uses of the C library on texts,
--                AsicId.Parse parse_one_line and amdgpu_parse_asic_ids, and AsicId.Table the lines as
--                they are written.
--   Pci          libdrm_device.cpp. Pci.Lookup is ParseDevPciAdr and LookupPciDevice, Pci.Devices
--                drmDeviceAlloc, drmGetDeviceInt and drmGetDevices2, Pci.Nodes drmGetDevice2 and
--                drmGetRenderDeviceNameFromFd, Pci.Free the functions that free devices, and Pci.Poke
--                the call of Poke.cpp that the search for a PCI device makes.
--   Drm          libdrm_common.c: the calls that make one ioctl each. Drm.Args has the arguments of the
--                ioctls, Drm.Syncobj and Drm.Device the calls, drmSyncobjCreate and so on, which take
--                the ioctl as a function on the driver's state. Drm.Command has the drmCommand functions,
--                and Drm.Utils those that make no ioctl.
--   Trace        libdrm_trace.c, which prints ioctls: what a program prints, as calls of printf, over a
--                memory of bytes where a read that is not allowed is a fault. Trace.Output has that,
--                Trace.Flags the loops over the bits of a word, Trace.Post the answers of queries and
--                Trace.Reads and Trace.Answer what they read, Trace.Chunks and Trace.Commands the rest
--                of drmAmdgpuWriteCmd, and Trace.Drm drmWriteCmd and drmIoctlTrace.
--   Stub         the driver of stub/, which libdrm.cpp makes the library's ioctls go to. Stub.Buffers
--                is stub/memory.cpp, Stub.Fds stub/fdMapper.cpp, Stub.Ioctl the switch of drmIoctlStub
--                in stub/libdrmStub.cpp, Stub.Info and Stub.Amdgpu the cases of HandleAmdgpuIoctl.
--                The calls of the library are put together with them in Stub.Laws and Stub.Session,
--                Stub.Mapped and Stub.Translate follow an address through the mappings, and
--                Stub.Driver makes the buffers a driver for Bo.World. Stub.Dump is DumpIb, the dump of
--                a command buffer, Stub.Dump.Lines the packets that it is compared with, and
--                Stub.Regs the register names of stub/radeon_hd_regs.cpp.
-- VaRange is a client of VaMgr, and Bo one of HandleTable: they use the theorems of these modules and
-- never look into a list of holes or an array.
--
-- The conventions. A number is a natural number below the width of its C type; each addition or
-- subtraction that C computes modulo 2^32 or 2^64 is `add32`, `sub32`, `add64` or `sub64`. Where a
-- theorem asks that a sum does not wrap, the hypothesis says so. A call returns `ok` for 0 or
-- `err e`; an output parameter is an `Option`, with `none` for no write. A function that may fault
-- (a dangling pointer, a failed assertion) returns `none`; in Stub.Ioctl, `process_ioctl` is drmIoctl
-- in a process that is gone after a fault. A call that holds a mutex is one step.
--
-- Bounds. The search for a PCI device runs on fuel; it is enough if it is greater than an index that is
-- refused (Pci.Find), and Poke.cpp refuses 256 (Pci.Poke). So do the loop over a ring of nodes, where one
-- more than the number of nodes is enough (ListHead.Refine), and the dump of a command buffer, where
-- one more than the number of packets is (Stub.Dump.Walk). The loops of the manager are recursions on the list of
-- holes, and the search in the table of buffer objects runs for the `max_key` keys of the table.
--
-- Not modelled: drmMalloc is assumed to succeed where drmGetVersion calls it. In Bo.World the calls that
-- import an object or take memory of the user's own are left out, since they are not made by the
-- driver's creation of a handle. The dumps of bytes, words and mappings in stub/, which nothing calls,
-- the table of PCI identifiers in stub/radeon_hd.c, which nothing reads, the poke driver's
-- translation of addresses, and the command line tool tools/drmdevice.c, which prints what
-- drmGetDevices2 finds, have no definitions.
pub mod Base
pub mod ListHead
pub mod VaMgr
pub mod VaRange
pub mod HandleTable
pub mod Bo
pub mod Cs
pub mod Device
pub mod Gpu
pub mod AsicId
pub mod Pci
pub mod Drm
pub mod Trace
pub mod Stub
