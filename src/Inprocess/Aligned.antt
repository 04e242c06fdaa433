-- ===== src/Inprocess/Aligned.antt =====
-- The two vectors of `OsIpcReceiverSet` in src/platform/inprocess/mod.rs are one table.
use ipc_channel.Base.{
  ℕ, ◌+◌, ◌%◌, ◌^◌, ◌<◌, ◌≡◌, refl, sym, ap, ◌∙◌, some, [], ◌∷◌, ◌++◌, ok, arith, get_elem?,
  remove_at, All, All-append,
}
use ipc_channel.Inprocess.Channel.{Arrival, message, no_senders, nothing, consume, delivered}
use ipc_channel.Inprocess.ReceiverSet.{
  OsIpcReceiverSet, OsIpcSelectionResult, data_received, closed_channel, add, borrows, complete,
  chosen, select, is_empty,
}
use ipc_channel.Inprocess.Table.{
  Table, ids, held, receivers_of, Rising, ids-append, receivers_of-append, Rising-append,
  Below-weaken, borrows-receivers_of, get-ids, get-channels, ids-remove_at, receivers_of-remove_at,
  Rising-remove_at, Below-remove_at, not_empty,
}

-- The set holds the table: the vectors are its columns, and its identifiers have been given out, in
-- their order.
pub record Holds (s : OsIpcReceiverSet) (t : Table) : Type 0 where
  pub ids_are : s.receiver_ids ≡ ids t
  pub receivers_are : s.receivers ≡ receivers_of t
  pub rising : Rising 0 t
  pub below : All (λ i. i < s.incrementor) (ids t)

-- Below the last identifier of 64 bits, `add` appends a row, under an identifier that is greater
-- than all before.
pub add-Holds :
    (c : ℕ) (s : OsIpcReceiverSet) (t : Table)
    → s.incrementor + 1 < 2 ^ 64
    → Holds s t
    → Holds (add (held c) s).0 (t ++ ((s.incrementor, c) ∷ []))
unfolding add consume
add-Holds c s t h v =
    let next : (s.incrementor + 1) % 2 ^ 64 ≡ s.incrementor + 1 = omega arith in
    record {
      ids_are =
          ap (λ xs. xs ++ (s.incrementor ∷ [])) v.ids_are
          ∙ sym (ids-append t ((s.incrementor, c) ∷ []));
      receivers_are =
          ap (λ xs. xs ++ (held c ∷ [])) v.receivers_are
          ∙ sym (receivers_of-append t ((s.incrementor, c) ∷ []));
      rising = Rising-append 0 s.incrementor c t (omega arith) v.rising v.below;
      below =
          rw (next, ids-append t ((s.incrementor, c) ∷ []))
            (All-append (λ i. i < s.incrementor + 1) (ids t) (s.incrementor ∷ [])
              (Below-weaken s.incrementor (s.incrementor + 1) (ids t) (omega arith) v.below)
              (omega arith, tt));
    }

remove-Holds :
    (n : ℕ) (s : OsIpcReceiverSet) (t : Table)
    → Holds s t
    → Holds
        (record s {
          receiver_ids = remove_at n s.receiver_ids;
          receivers = remove_at n s.receivers;
        })
        (remove_at n t)
remove-Holds n s t v = record {
  ids_are = ap (remove_at n) v.ids_are ∙ sym (ids-remove_at n t);
  receivers_are = ap (remove_at n) v.receivers_are ∙ sym (receivers_of-remove_at n t);
  rising = Rising-remove_at 0 n t v.rising;
  below = rw (ids-remove_at n t) (Below-remove_at s.incrementor n (ids t) v.below);
}

-- What is to be reported of a row, and the table afterwards.
abbrev pub result_of : Arrival → ℕ → OsIpcSelectionResult
result_of (message m) i = data_received i (delivered m)
result_of no_senders i = closed_channel i
result_of nothing i = closed_channel i

abbrev pub table_after : Arrival → ℕ → Table → Table
table_after (message m) n t = t
table_after no_senders n t = remove_at n t
table_after nothing n t = remove_at n t

complete-result :
    (arrival : ℕ → Arrival) (n i c : ℕ) (s : OsIpcReceiverSet) (t : Table) (x : Arrival)
    → arrival c ≡ x
    → Holds s t
    → ((complete arrival n s i c).1 ≡ ok (result_of x i ∷ []))
      × Holds (complete arrival n s i c).0 (table_after x n t)
unfolding complete
complete-result arrival n i c s t (message m) e v = rw (e, complete) (refl, v)
complete-result arrival n i c s t no_senders e v = rw (e, complete) (refl, remove-Holds n s t v)
complete-result arrival n i c s t nothing e v = rw (e, complete) (refl, remove-Holds n s t v)

-- Where the set holds a table, and crossbeam chooses one of its rows: `select` reports the row that
-- was chosen, under its identifier: the message that the row's channel has, or that it is closed,
-- and then just this row is gone. No index is out of range.
pub select-result :
    (arrival : ℕ → Arrival) (n i c : ℕ) (s : OsIpcReceiverSet) (t : Table)
    → Holds s t
    → get_elem? t n ≡ some (i, c)
    → ((select (some n) arrival s).1 ≡ ok (result_of (arrival c) i ∷ []))
      × Holds (select (some n) arrival s).0 (table_after (arrival c) n t)
unfolding select chosen
select-result arrival n i c s t v e =
    rw
      (
        ap is_empty v.receivers_are ∙ not_empty t n e,
        select,
        ap borrows v.receivers_are ∙ borrows-receivers_of t,
        chosen,
        ap (λ xs. get_elem? xs n) v.ids_are ∙ get-ids t n i c e,
        get-channels t n i c e,
      )
      (complete-result arrival n i c s t (arrival c) refl v)
