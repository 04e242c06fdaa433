-- ===== src/Windows/Send/Written.antt =====
-- What a successful `send` has written: one frame on the sender's pipe, in a single call, and the data
-- on a pipe of its own if it did not fit.
use ipc_channel.Base.{
  ℕ, zero, suc, ◌+◌, ◌-◌, ◌%◌, ◌^◌, ◌≤◌, ◌≡◌, refl, sym, ap, ◌∙◌, inl, inr, Bool, true, false, ◌&&◌,
  List, [], ◌∷◌, ◌++◌, append-nil, append_assoc, arith, ltb, leb, ◌==◌, if◌then◌else◌, ltb-false→le,
  leb→le, ==_iff, ==_false, Bool-cases, &&-true, length, take, drop, Result, on_ok, on_ok-ok, ok,
}
use ipc_channel.Windows.System.{WinError, System, pipe_buffer_size, gives, fails}
use ipc_channel.Windows.Message.{OutOfBandMessage, total_message_bytes_needed, full_message}
use ipc_channel.Windows.Message.Framing.{Fits, length-full_message}
use ipc_channel.Windows.Send.{
  AtomicMode, OsIpcChannel, SendAnswers, Pipes, Writes, write_loop, write_buf, oob_bytes_of,
  prepare, write_message, send, atomic, nonatomic,
}
use ipc_channel.Windows.SharedMemory.{OsIpcSharedMemory}

drop_all : (n : ℕ) (xs : List ℕ) → length xs ≤ n → drop n xs ≡ []
drop_all zero [] h = refl
drop_all zero (x ∷ xs) h = absurd (omega arith)
drop_all (suc n) [] h = refl
drop_all (suc n) (x ∷ xs) h = drop_all n xs (omega arith)

drop-drop : (n k : ℕ) (xs : List ℕ) → drop n (drop k xs) ≡ drop (k + n) xs
drop-drop n zero xs = let e : n ≡ 0 + n = omega arith in ap (λ m. drop m xs) e
drop-drop n (suc k) [] = drop_all n [] (omega arith) ∙ sym (drop_all (suc k + n) [] (omega arith))
drop-drop n (suc k) (x ∷ xs) =
    let e : suc (k + n) ≡ suc k + n = omega arith in drop-drop n k xs ∙ ap (λ m. drop m (x ∷ xs)) e

take-append-drop : (n : ℕ) (xs : List ℕ) → take n xs ++ drop n xs ≡ xs
take-append-drop zero xs = refl
take-append-drop (suc n) [] = refl
take-append-drop (suc n) (x ∷ xs) = ap (◌∷◌ x) (take-append-drop n xs)

-- The bytes are all there when the loop ends well.
write_loop-written :
    (mode : AtomicMode) (answers : Writes) (bytes pipe pipe' : List ℕ) (written : ℕ)
    → write_loop mode answers bytes written pipe ≡ (pipe', ok tt)
    → pipe' ≡ pipe ++ drop written bytes
unfolding write_loop
write_loop-written mode [] bytes pipe pipe' written e =
    elim (Bool-cases (ltb written (length bytes))) [
      | inl more ↦ absurd (ground arith)
      | inr done ↦ ground (
        arith,
        drop_all written bytes (ltb-false→le written (length bytes) done),
        append-nil pipe,
      )
    ]
write_loop-written mode (fails x ∷ answers) bytes pipe pipe' written e =
    elim (Bool-cases (ltb written (length bytes))) [
      | inl more ↦ absurd (ground arith)
      | inr done ↦ ground (
        arith,
        drop_all written bytes (ltb-false→le written (length bytes) done),
        append-nil pipe,
      )
    ]
write_loop-written mode (gives n ∷ answers) bytes pipe pipe' written e =
    elim (Bool-cases (ltb written (length bytes))) [
      | inl more ↦
          let pipe'' = pipe ++ take n (drop written bytes) in
          let f : write_loop mode answers bytes (written + n) pipe'' ≡ (pipe', ok tt) =
            ground arith in
          write_loop-written mode answers bytes pipe'' pipe' (written + n) f
          ∙ append_assoc pipe (take n (drop written bytes)) (drop (written + n) bytes)
          ∙ ap (λ bs. pipe ++ bs)
              (ap (λ bs. take n (drop written bytes) ++ bs) (sym (drop-drop n written bytes))
                ∙ take-append-drop n (drop written bytes))
      | inr done ↦ ground (
        arith,
        drop_all written bytes (ltb-false→le written (length bytes) done),
        append-nil pipe,
      )
    ]

write_buf-written :
    (mode : AtomicMode) (answers : Writes) (bytes pipe pipe' : List ℕ)
    → write_buf mode answers bytes pipe ≡ (pipe', ok tt)
    → pipe' ≡ pipe ++ bytes
unfolding write_buf
write_buf-written mode answers [] pipe pipe' e = ground (arith, append-nil pipe)
write_buf-written mode answers (b ∷ bytes) pipe pipe' e =
    write_loop-written mode answers (b ∷ bytes) pipe pipe' 0
      (ground (arith, ==_false (suc (length bytes)) 0 λ f. omega arith))

-- What has been written of a message, by the out-of-band data that went with it.
pub record Written (w : System) (bytes : List ℕ) (big : Bool) (oob : OutOfBandMessage)
    (pipes pipes' : Pipes) : Type 0 where
  pub main_is :
      pipes'.main ≡ pipes.main ++ full_message (if big then [] else bytes) (oob_bytes_of w oob)
  pub dedicated_is : pipes'.dedicated ≡ (if big then pipes.dedicated ++ bytes else pipes.dedicated)
  pub fits : Fits (if big then [] else bytes) (oob_bytes_of w oob)
  pub bounded :
      length (full_message (if big then [] else bytes) (oob_bytes_of w oob)) ≤ pipe_buffer_size

abbrev last_step :
    Bool → Pipes → List ℕ × Result WinError (Unit {0}) → Pipes × Result WinError (Unit {0})
last_step big m raw = if big then (record m { dedicated = raw.0 }, raw.1) else (m, ok tt)

-- The end of `write_message`, from what the two calls of `write_buf` left.
finished :
    (big : Bool) (m m' : Pipes) (raw : List ℕ × Result WinError (Unit {0})) (bytes : List ℕ)
    → (raw.1 ≡ ok tt → raw.0 ≡ m.dedicated ++ bytes)
    → last_step big m raw ≡ (m', ok tt)
    → (m'.main ≡ m.main) × (m'.dedicated ≡ (if big then m.dedicated ++ bytes else m.dedicated))
finished true m m' raw bytes h e = (cc e, cc (e, h (cc e)))
finished false m m' raw bytes h e = (cc e, cc e)

write_message-Written :
    (w : System) (a : SendAnswers) (bytes : List ℕ) (big : Bool) (oob : OutOfBandMessage)
    (pipes pipes' : Pipes)
    → write_message w a bytes big oob pipes ≡ (pipes', ok tt)
    → Written w bytes big oob pipes pipes'
unfolding write_message
write_message-Written w a bytes big oob pipes pipes' e =
    elim (Bool-cases (leb total pipe_buffer_size && (length full == total))) [
      | inr bad ↦ absurd (ground arith)
      | inl good ↦
          let f : on_ok pipes_main written.1 after ≡ (pipes', ok tt) = ground arith in
          let (_, first, second) = on_ok-ok pipes_main pipes' written.1 after f in
          let (main_is, dedicated_is) =
            finished big pipes_main pipes' raw bytes raw_written second in
          let (small, exact) = &&-true (leb total pipe_buffer_size) (length full == total) good in
          let same : length full ≡ total = (==_iff (length full) total).0 exact in
          record {
            main_is =
                main_is
                ∙ write_buf-written atomic a.writes full pipes.main written.0
                    (ap (λ r. (written.0, r)) first);
            dedicated_is = dedicated_is;
            fits =
                unfold total_message_bytes_needed in
                record {
                  data_fits = omega (arith, length-full_message in_band oob_data);
                  oob_fits = omega (arith, length-full_message in_band oob_data);
                };
            bounded = omega (arith, leb→le total pipe_buffer_size small);
          }
    ]
  where
    in_band : List ℕ
    in_band = if big then [] else bytes

    oob_data : List ℕ
    oob_data = oob_bytes_of w oob

    full : List ℕ
    full = full_message in_band oob_data

    total : ℕ
    total =
        total_message_bytes_needed
          (record { data_len = length in_band % 2 ^ 32; oob_len = length oob_data % 2 ^ 32 })

    written : List ℕ × Result WinError (Unit {0})
    written = write_buf atomic a.writes full pipes.main

    raw : List ℕ × Result WinError (Unit {0})
    raw = write_buf nonatomic a.raw_writes bytes pipes.dedicated

    pipes_main : Pipes
    pipes_main = record pipes { main = written.0 }

    after : Unit {0} → Pipes × Result WinError (Unit {0})
    after _ = last_step big pipes_main raw

    raw_written : raw.1 ≡ ok tt → raw.0 ≡ pipes.dedicated ++ bytes
    raw_written r =
        write_buf-written nonatomic a.raw_writes bytes pipes.dedicated raw.0
          (ap (λ result. (raw.0, result)) r)

-- A successful send has written one frame on the sender's pipe, not longer than the pipe's buffer: with
-- the data, or, if there was too much, without it, and then the data is on a pipe of its own. The lengths
-- in the header are those of the data and of the out-of-band data.
pub send-Written :
    (w : System) (a : SendAnswers) (bytes : List ℕ) (ports : List OsIpcChannel)
    (regions : List OsIpcSharedMemory) (pipes pipes' : Pipes)
    → send w a bytes ports regions pipes ≡ (pipes', ok tt)
    → (plan : Bool × OutOfBandMessage) × (prepare w a bytes ports regions ≡ ok plan)
      × Written w bytes plan.0 plan.1 pipes pipes'
unfolding send
send-Written w a bytes ports regions pipes pipes' e =
    elim (Bool-cases (leb (length bytes) (2 ^ 32 - 1))) [
      | inr bad ↦ absurd (ground arith)
      | inl good ↦
          let f : on_ok pipes (prepare w a bytes ports regions) write ≡ (pipes', ok tt) =
            ground arith in
          let (plan, prepared, rest) =
            on_ok-ok pipes pipes' (prepare w a bytes ports regions) write f in
          (plan, prepared, write_message-Written w a bytes plan.0 plan.1 pipes pipes' rest)
    ]
  where
    write : Bool × OutOfBandMessage → Pipes × Result WinError (Unit {0})
    write (big, oob) = write_message w a bytes big oob pipes
