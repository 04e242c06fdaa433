-- ===== src/Unix/Size.antt =====
-- How large a fragment may be: `fragment_size`, `first_fragment_size`, `get_max_fragment_size` and
-- `downsize` of src/platform/unix/mod.rs.
use ipc_channel.Base.{
  ℕ, ◌-◌, ◌*◌, ◌/◌, ◌^◌, ◌≤◌, ◌<◌, ◌≡◌, Option, none, some, arith, ltb, if◌then◌else◌, sub_usize,
  sub_usize_lem,
}
use ipc_channel.Unix.Kernel.{Kernel}

abbrev pub reserved_size : ℕ
reserved_size = 32

-- `mem::size_of::<usize>()`
abbrev pub header_size : ℕ
header_size = 8

unfoldable pub fragment_size : ℕ → ℕ
fragment_size sendbuf_size = sub_usize sendbuf_size reserved_size

-- `x & (!8usize + 1)`: the mask is 2^64 - 8, which clears the three low bits.
abbrev pub align_down : ℕ → ℕ
align_down x = x / 8 * 8

unfoldable pub first_fragment_size : ℕ → ℕ
first_fragment_size sendbuf_size = align_down (sub_usize (fragment_size sendbuf_size) header_size)

unfoldable pub get_max_fragment_size : Kernel → ℕ
get_max_fragment_size k = first_fragment_size k.sendbuf_size

-- The new buffer size; `none` is `Err(())`.
unfoldable pub downsize : ℕ → ℕ → Option ℕ
downsize sendbuf_size sent_size =
    let halved = sendbuf_size / 2 in
    if ltb 2000 sent_size
    then some (if ltb halved sent_size then halved else sent_size / 2)
    else none

-- A buffer that holds the header and eight bytes, and a sum of two of which does not wrap.
pub record IsBufSize (n : ℕ) : Type 0 where
  pub holds : 48 ≤ n
  pub fits : n < 2 ^ 63

pub fragment_size_lem : (n : ℕ) → IsBufSize n → fragment_size n ≡ n - 32
unfolding fragment_size
fragment_size_lem n h = sub_usize_lem n 32 (omega arith) (omega arith)

pub first_fragment_size_lem : (n : ℕ) → IsBufSize n → first_fragment_size n ≡ (n - 40) / 8 * 8
unfolding first_fragment_size
first_fragment_size_lem n h = omega (
  arith,
  fragment_size_lem n h,
  sub_usize_lem (fragment_size n) 8 (omega (arith, fragment_size_lem n h))
      (omega (arith, fragment_size_lem n h)),
)

pub first_fragment_size_mono :
    (m n : ℕ) → IsBufSize m → IsBufSize n → m ≤ n → first_fragment_size m ≤ first_fragment_size n
first_fragment_size_mono m n hm hn h =
    omega (arith, first_fragment_size_lem m hm, first_fragment_size_lem n hn)

pub fragment_size_mono :
    (m n : ℕ) → IsBufSize m → IsBufSize n → m ≤ n → fragment_size m ≤ fragment_size n
fragment_size_mono m n hm hn h = omega (arith, fragment_size_lem m hm, fragment_size_lem n hn)

-- After a refused attempt to send `sent` bytes out of a buffer of at least that size, the new
-- buffer is smaller than what was tried, and still far from the point where the sizes underflow.
pub downsize_bounds :
    (n sent m : ℕ) → sent ≤ n → downsize n sent ≡ some m → (m < sent) × (m < n) × (1000 ≤ m)
unfolding downsize
downsize_bounds n sent m h e = ground arith

pub downsize-IsBufSize :
    (n sent m : ℕ) → IsBufSize n → sent ≤ n → downsize n sent ≡ some m → IsBufSize m
downsize-IsBufSize n sent m b h e = omega (arith, downsize_bounds n sent m h e)

pub downsize-none : (n sent : ℕ) → downsize n sent ≡ none → sent ≤ 2000
unfolding downsize
downsize-none n sent e = ground arith
