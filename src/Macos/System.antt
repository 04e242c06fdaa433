-- ===== src/Macos/System.antt =====
-- The codes of the Mach kernel and the error types that src/platform/macos/mod.rs makes of them.
-- A kern_return_t is the number of its 32 bits.
use ipc_channel.Base.{ℕ, List, [], ◌∷◌, ◌==◌, if◌then◌else◌}

abbrev pub kern_success : ℕ
kern_success = 0

abbrev pub kern_no_space : ℕ
kern_no_space = 3

abbrev pub kern_invalid_name : ℕ
kern_invalid_name = 15

abbrev pub kern_invalid_right : ℕ
kern_invalid_right = 17

abbrev pub kern_invalid_value : ℕ
kern_invalid_value = 18

abbrev pub kern_invalid_capability : ℕ
kern_invalid_capability = 20

abbrev pub kern_urefs_overflow : ℕ
kern_urefs_overflow = 19

abbrev pub kern_not_in_set : ℕ
kern_not_in_set = 12

abbrev pub mach_msg_success : ℕ
mach_msg_success = 0

abbrev pub mach_msg_ipc_kernel : ℕ
mach_msg_ipc_kernel = 2048

abbrev pub mach_msg_ipc_space : ℕ
mach_msg_ipc_space = 8192

abbrev pub mach_msg_vm_kernel : ℕ
mach_msg_vm_kernel = 1024

abbrev pub mach_msg_vm_space : ℕ
mach_msg_vm_space = 4096

abbrev pub mach_rcv_body_error : ℕ
mach_rcv_body_error = 268451852

abbrev pub mach_rcv_header_error : ℕ
mach_rcv_header_error = 268451851

abbrev pub mach_rcv_interrupted : ℕ
mach_rcv_interrupted = 268451845

abbrev pub mach_rcv_invalid_data : ℕ
mach_rcv_invalid_data = 268451848

abbrev pub mach_rcv_invalid_name : ℕ
mach_rcv_invalid_name = 268451842

abbrev pub mach_rcv_invalid_notify : ℕ
mach_rcv_invalid_notify = 268451847

abbrev pub mach_rcv_invalid_trailer : ℕ
mach_rcv_invalid_trailer = 268451855

abbrev pub mach_rcv_invalid_type : ℕ
mach_rcv_invalid_type = 268451853

abbrev pub mach_rcv_in_progress : ℕ
mach_rcv_in_progress = 268451841

abbrev pub mach_rcv_in_progress_timed : ℕ
mach_rcv_in_progress_timed = 268451857

abbrev pub mach_rcv_in_set : ℕ
mach_rcv_in_set = 268451850

abbrev pub mach_rcv_port_changed : ℕ
mach_rcv_port_changed = 268451846

abbrev pub mach_rcv_port_died : ℕ
mach_rcv_port_died = 268451849

abbrev pub mach_rcv_scatter_small : ℕ
mach_rcv_scatter_small = 268451854

abbrev pub mach_rcv_timed_out : ℕ
mach_rcv_timed_out = 268451843

abbrev pub mach_rcv_too_large : ℕ
mach_rcv_too_large = 268451844

abbrev pub mach_notify_no_senders : ℕ
mach_notify_no_senders = 70

abbrev pub mach_send_interrupted : ℕ
mach_send_interrupted = 268435463

abbrev pub mach_send_invalid_data : ℕ
mach_send_invalid_data = 268435458

abbrev pub mach_send_invalid_dest : ℕ
mach_send_invalid_dest = 268435459

abbrev pub mach_send_invalid_header : ℕ
mach_send_invalid_header = 268435472

abbrev pub mach_send_invalid_memory : ℕ
mach_send_invalid_memory = 268435468

abbrev pub mach_send_invalid_notify : ℕ
mach_send_invalid_notify = 268435467

abbrev pub mach_send_invalid_reply : ℕ
mach_send_invalid_reply = 268435465

abbrev pub mach_send_invalid_right : ℕ
mach_send_invalid_right = 268435466

abbrev pub mach_send_invalid_rt_ool_size : ℕ
mach_send_invalid_rt_ool_size = 268435477

abbrev pub mach_send_invalid_trailer : ℕ
mach_send_invalid_trailer = 268435473

abbrev pub mach_send_invalid_type : ℕ
mach_send_invalid_type = 268435471

abbrev pub mach_send_invalid_voucher : ℕ
mach_send_invalid_voucher = 268435461

abbrev pub mach_send_in_progress : ℕ
mach_send_in_progress = 268435457

abbrev pub mach_send_msg_too_small : ℕ
mach_send_msg_too_small = 268435464

abbrev pub mach_send_no_buffer : ℕ
mach_send_no_buffer = 268435469

abbrev pub mach_send_timed_out : ℕ
mach_send_timed_out = 268435460

abbrev pub mach_send_too_large : ℕ
mach_send_too_large = 268435470

abbrev pub bootstrap_name_in_use : ℕ
bootstrap_name_in_use = 1101

abbrev pub bootstrap_success : ℕ
bootstrap_success = 0

abbrev pub mach_msg_timeout_none : ℕ
mach_msg_timeout_none = 0

abbrev pub mach_port_null : ℕ
mach_port_null = 0

abbrev pub mach_rcv_msg : ℕ
mach_rcv_msg = 2

abbrev pub mach_rcv_large : ℕ
mach_rcv_large = 4

abbrev pub mach_rcv_timeout : ℕ
mach_rcv_timeout = 256

abbrev pub mach_port_right_send : ℕ
mach_port_right_send = 0

abbrev pub mach_port_right_receive : ℕ
mach_port_right_receive = 1

abbrev pub mach_port_right_port_set : ℕ
mach_port_right_port_set = 3

abbrev pub mach_msg_type_make_send : ℕ
mach_msg_type_make_send = 20

abbrev pub mach_msg_type_port_send : ℕ
mach_msg_type_port_send = 17

abbrev pub small_message_size : ℕ
small_message_size = 4096

pub data KernelError : Type 0 where
  kernel_success no_space invalid_name invalid_right invalid_value invalid_capability urefs_overflow
        not_in_set :
      KernelError
  unknown_kernel : ℕ → KernelError

pub data MachError : Type 0 where
  success : MachError
  kernel : KernelError → MachError
  ipc_space vm_space ipc_kernel vm_kernel : MachError
  rcv_in_progress rcv_invalid_name rcv_timed_out rcv_too_large : MachError
  rcv_interrupted rcv_port_changed rcv_invalid_notify rcv_invalid_data : MachError
  rcv_port_died rcv_in_set rcv_header_error rcv_body_error : MachError
  rcv_invalid_type rcv_scatter_small rcv_invalid_trailer rcv_in_progress_timed : MachError
  notify_no_senders send_interrupted send_invalid_data send_invalid_dest : MachError
  send_invalid_header send_invalid_memory send_invalid_notify send_invalid_reply : MachError
  send_invalid_right send_invalid_rt_ool_size send_invalid_trailer send_invalid_type : MachError
  send_invalid_voucher send_in_progress send_msg_too_small send_no_buffer : MachError
  send_timed_out send_too_large : MachError
  unknown : ℕ → MachError

-- The first arm of a `match` on a code, or what the last arm gives.
unfoldable pub match_code {ℓ} : {E : Type ℓ} → List (ℕ × E) → (ℕ → E) → ℕ → E
match_code [] otherwise code = otherwise code
match_code ((c, e) ∷ arms) otherwise code = if code == c then e else match_code arms otherwise code

-- `From<kern_return_t> for KernelError`
unfoldable pub kernel_error_from : ℕ → KernelError
unfolding match_code
kernel_error_from =
    match_code
      ((kern_success, kernel_success)
        ∷ (kern_no_space, no_space)
        ∷ (kern_invalid_name, invalid_name)
        ∷ (kern_invalid_right, invalid_right)
        ∷ (kern_invalid_value, invalid_value)
        ∷ (kern_invalid_capability, invalid_capability)
        ∷ (kern_urefs_overflow, urefs_overflow)
        ∷ (kern_not_in_set, not_in_set)
        ∷ [])
      unknown_kernel

-- `From<mach_msg_return_t> for MachError`
unfoldable pub mach_error_from : ℕ → MachError
unfolding match_code
mach_error_from =
    match_code
      ((mach_msg_success, success)
        ∷ (mach_msg_ipc_kernel, ipc_kernel)
        ∷ (mach_msg_ipc_space, ipc_space)
        ∷ (mach_msg_vm_kernel, vm_kernel)
        ∷ (mach_msg_vm_space, vm_space)
        ∷ (mach_rcv_body_error, rcv_body_error)
        ∷ (mach_rcv_header_error, rcv_header_error)
        ∷ (mach_rcv_interrupted, rcv_interrupted)
        ∷ (mach_rcv_invalid_data, rcv_invalid_data)
        ∷ (mach_rcv_invalid_name, rcv_invalid_name)
        ∷ (mach_rcv_invalid_notify, rcv_invalid_notify)
        ∷ (mach_rcv_invalid_trailer, rcv_invalid_trailer)
        ∷ (mach_rcv_invalid_type, rcv_invalid_type)
        ∷ (mach_rcv_in_progress, rcv_in_progress)
        ∷ (mach_rcv_in_progress_timed, rcv_in_progress_timed)
        ∷ (mach_rcv_in_set, rcv_in_set)
        ∷ (mach_rcv_port_changed, rcv_port_changed)
        ∷ (mach_rcv_port_died, rcv_port_died)
        ∷ (mach_rcv_scatter_small, rcv_scatter_small)
        ∷ (mach_rcv_timed_out, rcv_timed_out)
        ∷ (mach_rcv_too_large, rcv_too_large)
        ∷ (mach_notify_no_senders, notify_no_senders)
        ∷ (mach_send_interrupted, send_interrupted)
        ∷ (mach_send_invalid_data, send_invalid_data)
        ∷ (mach_send_invalid_dest, send_invalid_dest)
        ∷ (mach_send_invalid_header, send_invalid_header)
        ∷ (mach_send_invalid_memory, send_invalid_memory)
        ∷ (mach_send_invalid_notify, send_invalid_notify)
        ∷ (mach_send_invalid_reply, send_invalid_reply)
        ∷ (mach_send_invalid_right, send_invalid_right)
        ∷ (mach_send_invalid_rt_ool_size, send_invalid_rt_ool_size)
        ∷ (mach_send_invalid_trailer, send_invalid_trailer)
        ∷ (mach_send_invalid_type, send_invalid_type)
        ∷ (mach_send_invalid_voucher, send_invalid_voucher)
        ∷ (mach_send_in_progress, send_in_progress)
        ∷ (mach_send_msg_too_small, send_msg_too_small)
        ∷ (mach_send_no_buffer, send_no_buffer)
        ∷ (mach_send_timed_out, send_timed_out)
        ∷ (mach_send_too_large, send_too_large)
        ∷ [])
      unknown
