-- ===== src/Windows/Tests/Codecs.antt =====
-- A system, and a codec for its out-of-band messages that is inverted: the process, the big data, the
-- number of channels, their handles, the regions.
use ipc_channel.Base.{
  ℕ, ◌+◌, ◌<◌, ◌≡◌, refl, ap, Option, none, some, List, [], ◌∷◌, ◌++◌, arith, ◌==◌, if◌then◌else◌,
  length, take, drop, take-append, drop-append,
}
use ipc_channel.Windows.System.{System, OobTuple}
use ipc_channel.Windows.RoundTrip.{Codec}

abbrev flatten : List (ℕ × ℕ) → List ℕ
flatten [] = []
flatten ((h, n) ∷ rest) = h ∷ n ∷ flatten rest

abbrev pairs : List ℕ → List (ℕ × ℕ)
pairs (h ∷ n ∷ rest) = (h, n) ∷ pairs rest
pairs (_ ∷ []) = []
pairs [] = []

abbrev encode : OobTuple → List ℕ
encode (pid, channels, regions, none) =
    pid ∷ 0 ∷ 0 ∷ 0 ∷ length channels ∷ (channels ++ flatten regions)
encode (pid, channels, regions, some (h, n)) =
    pid ∷ 1 ∷ h ∷ n ∷ length channels ∷ (channels ++ flatten regions)

abbrev decode : List ℕ → Option OobTuple
decode (pid ∷ big ∷ h ∷ n ∷ k ∷ rest) =
    some (pid, take k rest, pairs (drop k rest), if big == 0 then none else some (h, n))
decode _ = none

-- ERROR_IO_PENDING is 997, ERROR_BROKEN_PIPE 109, and so on.
abbrev pub process : ℕ → System
process pid = record {
  invalid_handle_value = 18446744073709551615;
  error_not_found = 1168;
  error_io_pending = 997;
  error_broken_pipe = 109;
  error_io_incomplete = 996;
  wait_timeout = 258;
  error_pipe_connected = 535;
  error_no_data = 232;
  current_process_id = pid;
  current_process_handle = 18446744073709551615;
  map_view_of_file = λ h. h + 4096;
  serialize = encode;
  deserialize = decode;
}

pairs-flatten : (xs : List (ℕ × ℕ)) → pairs (flatten xs) ≡ xs
pairs-flatten [] = refl
pairs-flatten ((h, n) ∷ xs) = ap (◌∷◌ (h, n)) (pairs-flatten xs)

decode-encode : (t : OobTuple) → decode (encode t) ≡ some t
decode-encode (pid, channels, regions, none) =
    rw
      (
        take-append (length channels) channels (flatten regions) refl,
        drop-append (length channels) channels (flatten regions) refl,
        pairs-flatten regions,
      )
      refl
decode-encode (pid, channels, regions, some (h, n)) =
    rw
      (
        take-append (length channels) channels (flatten regions) refl,
        drop-append (length channels) channels (flatten regions) refl,
        pairs-flatten regions,
      )
      refl

pub process-Codec : (p q : ℕ) → Codec (process p) (process q)
process-Codec p q = record { inverts = decode-encode; nonempty = nonempty }
  where
    nonempty : (t : OobTuple) → 0 < length (encode t)
    nonempty (pid, channels, regions, none) = omega arith
    nonempty (pid, channels, regions, some (h, n)) = omega arith
