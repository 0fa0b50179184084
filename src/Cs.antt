-- ===== src/Cs.antt =====
-- Command submission, amdgpu/amdgpu_cs.c: contexts with a sequence number and a list of waiting
-- semaphores for each ring, the chunks of a submission, fences, and sync files. Contexts and
-- semaphores are on explicit heaps, and a pointer is its address (0 is NULL). Each call runs under
-- `sequence_mutex`, so it is one step. `none` is a fault: a pointer to nothing, a failed assertion, an
-- index out of the arrays' bounds, or a node linked into a second list.
pub mod State
pub mod Semaphore
pub mod Submit
pub mod Time
pub mod Laws
pub mod Handoff
pub mod Batch
pub mod SyncFile
pub mod Syncobj
pub mod Context
pub mod Release
mod Tests
