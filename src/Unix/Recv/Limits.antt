-- ===== src/Unix/Recv/Limits.antt =====
-- How many handles a message can bring through `recv` of src/platform/unix/mod.rs.
use ipc_channel.Base.{ℕ, ◌+◌, length}
use ipc_channel.Unix.Kernel.{Kernel}
use ipc_channel.Unix.Recv.{Handles}

abbrev pub handle_count : Handles → ℕ
handle_count h = length h.channels + length h.shared_memory_regions
