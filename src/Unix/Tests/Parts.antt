-- ===== src/Unix/Tests/Parts.antt =====
-- Concrete runs of single functions of src/platform/unix/mod.rs.
use ipc_channel.Base.{◌≡◌, refl, none, [], ◌∷◌, ok, pos}
use ipc_channel.Unix.Handles.{is_socket, map_at, map_file, shared_memory_from_fd}
use ipc_channel.Unix.Recv.{RecvAnswer, CmsgAnswers, sort_fds, timed_out}
use ipc_channel.Unix.Recv.Sorting.{sort_fds-sorts}
use ipc_channel.Unix.Tests.{small_kernel, arrived_region}

sort_fds-sorts_example :
    sort_fds small_kernel
      (pos 103 ∷ pos 104 ∷ pos 112 ∷ pos 108 ∷ [])
      (record { channels = []; shared_memory_regions = [] })
    ≡ ok (record {
      channels = record { fd = pos 103 } ∷ record { fd = pos 104 } ∷ record { fd = pos 108 } ∷ [];
      shared_memory_regions = arrived_region ∷ [];
    })
sort_fds-sorts_example =
    sort_fds-sorts small_kernel (pos 103 ∷ pos 104 ∷ []) (arrived_region ∷ []) (pos 108 ∷ [])
      (unfold is_socket in (refl, (refl, tt)))
      (unfold is_socket shared_memory_from_fd map_file map_at in ((refl, refl), tt))
      (unfold is_socket in (refl, tt))

abbrev failing : RecvAnswer → CmsgAnswers
failing r = record {
  malloc_failed = none;
  set_failed = none;
  polled = timed_out;
  recvmsg = r;
  clear_failed = none;
}
