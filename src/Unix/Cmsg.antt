-- ===== src/Unix/Cmsg.antt =====
-- The layout of control messages: `CMSG_LEN`, `CMSG_ALIGN` and `CMSG_SPACE` of
-- src/platform/unix/mod.rs, and the count of descriptors that `recv` computes from it.
use ipc_channel.Base.{
  ℕ, ◌+◌, ◌*◌, ◌/◌, ◌^◌, ◌≤◌, ◌<◌, ◌≡◌, ◌≢◌, arith, sub_usize, add_usize, ◌==◌, if◌then◌else◌,
}

abbrev pub max_fds_in_cmsg : ℕ
max_fds_in_cmsg = 64

-- `mem::size_of::<cmsghdr>()`: a `size_t` and two `c_int`s.
abbrev pub cmsghdr_size : ℕ
cmsghdr_size = 16

-- `mem::size_of::<c_int>()`
abbrev pub fd_size : ℕ
fd_size = 4

-- `(length + 8 - 1) & !(8 - 1)`: the mask clears the three low bits.
unfoldable pub cmsg_align : ℕ → ℕ
cmsg_align length = sub_usize (add_usize length 8) 1 / 8 * 8

unfoldable pub cmsg_len : ℕ → ℕ
unfolding cmsg_align
cmsg_len length = add_usize (cmsg_align cmsghdr_size) length

unfoldable pub cmsg_space : ℕ → ℕ
unfolding cmsg_align
cmsg_space length = add_usize (cmsg_align length) (cmsg_align cmsghdr_size)

-- The count of descriptors in a received control buffer, from `msg_controllen` and the header's
-- `cmsg_len`.
unfoldable pub channel_length : ℕ → ℕ → ℕ
unfolding cmsg_align
channel_length controllen len =
    if controllen == 0 then 0 else sub_usize len (cmsg_align cmsghdr_size) / fd_size

-- The count that `send` puts into a header, `recv` reads from it.
pub channel_length-cmsg_len :
    (controllen n : ℕ)
    → controllen ≢ 0
    → n < 2 ^ 32
    → channel_length controllen (cmsg_len (n * fd_size)) ≡ n
unfolding channel_length cmsg_len add_usize sub_usize
channel_length-cmsg_len c n h k = ground arith

-- The buffer that `recv` allocates holds the header and the descriptors of any message with at most 64
-- of them. The one that `send` allocates, for any count below 2^32, holds its own, with less than eight
-- bytes to spare.
pub cmsg_space_bounds :
    (n m : ℕ)
    → n ≤ max_fds_in_cmsg
    → m < 2 ^ 32
    → (cmsg_len (n * fd_size) ≤ cmsg_space (max_fds_in_cmsg * fd_size))
      × (cmsg_len (m * fd_size) ≤ cmsg_space (m * fd_size))
      × (cmsg_space (m * fd_size) < cmsg_len (m * fd_size) + 8)
unfolding cmsg_space cmsg_len add_usize sub_usize
cmsg_space_bounds n m h k = omega arith
