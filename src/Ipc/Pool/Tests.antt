-- ===== src/Ipc/Pool/Tests.antt =====
-- The pipe pool at a concrete input.
use ferrugem.Ipc.Pool.{initial, alloc_pipe}
use ferrugem.Ipc.Pool.Slots.{Allocates, alloc_pipe-Allocates}

alloc_pipe-Allocates_example : Allocates initial (alloc_pipe initial)
alloc_pipe-Allocates_example = alloc_pipe-Allocates initial
