-- ===== src/Windows/Reader/Release.antt =====
-- Before a reader goes, its read has ended: the kernel uses none of its memory any more, and no
-- `AliasedCell` is dropped with a value in it.
use ipc_channel.Base.{
  ◌+◌, ◌%◌, ◌^◌, ◌≡◌, refl, subst, inl, inr, Bool, true, false, ◌&&◌, Option, none, some, List, [],
  ◌∷◌, arith, leb, ◌==◌, if◌then◌else◌, Bool-cases, Option-cases, if_keeps, length, Result, chain,
  panic, waits, err, ok,
}
use ipc_channel.Windows.System.{WinError, System, from_system, no_data, blocking}
use ipc_channel.Windows.Message.{is_some}
use ipc_channel.Windows.Reader.{
  MessageReader, Cancel, Wait, IoResult, Outcome, take_back, issue_async_cancel, ignore,
  cancel_with, extend, notify_completion, fetch_async_result, cancel_io, drop_reader, wait_true,
  wait_false, io_ok, io_err,
}

abbrev returns : Result WinError (Unit {0}) → Bool
returns (ok _) = true
returns (err _) = true
returns panic = false
returns waits = false

-- A call that returns leaves no read in progress.
abbrev Releases : Outcome → Type 0
Releases (r, result) = returns result ≡ true → r.async ≡ none

is_some-false : {A : Type 0} (o : Option A) → is_some o ≡ false → o ≡ none
is_some-false none h = refl
is_some-false (some a) h = cc h

notify_completion-Releases :
    (w : System) (io_result : IoResult) (r : MessageReader)
    → Releases (notify_completion w io_result r)
unfolding notify_completion extend take_back
notify_completion-Releases w (io_err e) r = elim (Option-cases r.async) [
  | inl f ↦ simp (f, notify_completion) (λ k. cc k)
  | inr (c, f) ↦ simp (f, notify_completion) (λ _. refl)
]
notify_completion-Releases w (io_ok ov) r = elim (Option-cases r.async) [
  | inl f ↦ simp (f, notify_completion) (λ k. cc k)
  | inr (c, f) ↦ simp (f, notify_completion) (extended (take_back c.value r) refl)
]
  where
    extended : (r' : MessageReader) → r'.async ≡ none → Releases (extend ov r')
    extended r' e =
        elim (Bool-cases (
          ov.offset == 0
          && leb (length r'.read_buf.bytes + ov.internal_high % 2 ^ 32) r'.read_buf.capacity)) [
            | inl good ↦ rw good (λ _. e)
            | inr bad ↦ rw bad (λ k. cc k)
          ]

ignore-Releases : (o : Outcome) → Releases o → Releases (ignore o)
ignore-Releases (r, ok _) h k = h refl
ignore-Releases (r, err _) h k = h refl
ignore-Releases (r, panic) h k = cc k
ignore-Releases (r, waits) h k = cc k

chain-Releases :
    (o : Outcome) (next : MessageReader → Unit {0} → Outcome)
    → ((r : MessageReader) (e : WinError) → o ≡ (r, err e) → r.async ≡ none)
    → ((r : MessageReader) (u : Unit {0}) → o ≡ (r, ok u) → Releases (next r u))
    → Releases (chain o next)
chain-Releases (r, ok u) next k h f = h r u refl f
chain-Releases (r, err e) next k h f = k r e refl
chain-Releases (r, panic) next k h f = cc f
chain-Releases (r, waits) next k h f = cc f

-- A cancel is no error: it is done, or the code panics.
issue_async_cancel_no_err :
    (w : System) (answer : Cancel) (r r' : MessageReader) (e : WinError)
    → issue_async_cancel w answer r ≡ (r', err e)
    → ⊥
unfolding issue_async_cancel
issue_async_cancel_no_err w answer r r' e h = ground arith

cancel_with-Releases :
    (w : System) (answer : Cancel) (fetch : MessageReader → Outcome) (r : MessageReader)
    → ((r' : MessageReader) → Releases (fetch r'))
    → Releases (cancel_with w answer fetch r)
unfolding cancel_with
cancel_with-Releases w answer fetch r h = elim (Bool-cases (is_some r.async)) [
  | inl busy ↦ rw busy (
      if_keeps Releases (is_some r.entry_id) {x = (r, panic)}
        {y = chain (issue_async_cancel w answer r) wait} (λ k. cc k)
        (chain-Releases (issue_async_cancel w answer r) wait
          (λ r' e f. absurd (issue_async_cancel_no_err w answer r r' e f)) λ r' _ _. waited r'))
  | inr free ↦ rw free λ _. is_some-false r.async free
]
  where
    wait : MessageReader → Unit {0} → Outcome
    wait r' _ = if is_some r'.async then ignore (fetch r') else (r', ok tt)

    waited : (r' : MessageReader) → Releases (wait r' tt)
    waited r' = elim (Bool-cases (is_some r'.async)) [
      | inl busy ↦ rw busy (ignore-Releases (fetch r') (h r'))
      | inr free ↦ rw free λ _. is_some-false r'.async free
    ]

-- What follows a cancelled wait.
abbrev stop : MessageReader → Unit {0} → Outcome
stop r _ = (r, err no_data)

stop-Releases : (o : Outcome) → Releases o → Releases (chain o stop)
stop-Releases (r, ok _) h k = h refl
stop-Releases (r, err _) h k = h refl
stop-Releases (r, panic) h k = cc k
stop-Releases (r, waits) h k = cc k

fetch_async_result-Releases :
    (w : System) (answers : List Wait) (r : MessageReader)
    → Releases (fetch_async_result w answers blocking r)
unfolding fetch_async_result
fetch_async_result-Releases w [] r =
    if_keeps Releases (is_some r.async) {x = (r, waits)} {y = (r, panic)} (λ k. cc k) (λ k. cc k)
fetch_async_result-Releases w (wait_true ov ∷ _) r = notify_completion-Releases w (io_ok ov) r
fetch_async_result-Releases w (wait_false e cancel ∷ answers) r =
    if_keeps Releases (is_some r.async)
      {x = if e == w.wait_timeout then chain cancelled stop else failed} {y = (r, panic)}
      (if_keeps Releases (e == w.wait_timeout) {x = chain cancelled stop} {y = failed}
        (stop-Releases cancelled (
          cancel_with-Releases w cancel (fetch_async_result w answers blocking) r
            (fetch_async_result-Releases w answers)))
        (notify_completion-Releases w (io_err (from_system e)) r))
      (λ k. cc k)
  where
    cancelled : Outcome
    cancelled = cancel_with w cancel (fetch_async_result w answers blocking) r

    failed : Outcome
    failed = notify_completion w (io_err (from_system e)) r

-- When the drop of a reader that is in no set returns, no read is in progress.
pub drop_reader-releases :
    (w : System) (cancel : Cancel) (answers : List Wait) (r r' : MessageReader)
    → drop_reader w cancel answers r ≡ (r', ok tt)
    → r'.async ≡ none
unfolding drop_reader cancel_io
drop_reader-releases w cancel answers r r' e =
    let h : Releases (r', ok tt) = subst Releases e (
      cancel_with-Releases w cancel (fetch_async_result w answers blocking) r
        (fetch_async_result-Releases w answers)) in
    h refl
