-- ===== src/Inprocess/Table.antt =====
-- The columns of the table that `OsIpcReceiverSet` of src/platform/inprocess/mod.rs keeps.
use ipc_channel.Base.{
  ℕ, zero, suc, ◌≤◌, ◌<◌, ◌≡◌, refl, ap, false, some, List, [], ◌∷◌, ◌++◌, ok, arith, get_elem?,
  remove_at, All,
}
use ipc_channel.Inprocess.Channel.{OsIpcReceiver}
use ipc_channel.Inprocess.ReceiverSet.{borrows, is_empty}

-- The table that the set stands for: a channel under each identifier.
abbrev pub Table : Type 0
Table = List (ℕ × ℕ)

abbrev pub ids : Table → List ℕ
ids [] = []
ids ((i, c) ∷ t) = i ∷ ids t

abbrev pub held : ℕ → OsIpcReceiver
held c = record { receiver = some c }

abbrev pub receivers_of : Table → List OsIpcReceiver
receivers_of [] = []
receivers_of ((i, c) ∷ t) = held c ∷ receivers_of t

abbrev pub channels_of : Table → List ℕ
channels_of [] = []
channels_of ((i, c) ∷ t) = c ∷ channels_of t

-- The identifiers rise along the table, from `n` on.
abbrev pub Rising : ℕ → Table → Type 0
Rising n [] = Unit {0}
Rising n ((i, c) ∷ t) = (n ≤ i) × Rising (suc i) t

pub ids-append : (t u : Table) → ids (t ++ u) ≡ ids t ++ ids u
ids-append [] u = refl
ids-append ((i, c) ∷ t) u = ap (◌∷◌ i) (ids-append t u)

pub receivers_of-append : (t u : Table) → receivers_of (t ++ u) ≡ receivers_of t ++ receivers_of u
receivers_of-append [] u = refl
receivers_of-append ((i, c) ∷ t) u = ap (◌∷◌ (held c)) (receivers_of-append t u)

pub Rising-append :
    (n m c : ℕ) (t : Table)
    → n ≤ m
    → Rising n t
    → All (λ i. i < m) (ids t)
    → Rising n (t ++ ((m, c) ∷ []))
Rising-append n m c [] h r b = (h, tt)
Rising-append n m c ((i, d) ∷ t) h r b =
    (r.0, Rising-append (suc i) m c t (omega (arith, b.0)) r.1 b.1)

pub Below-weaken : (m n : ℕ) (xs : List ℕ) → m ≤ n → All (λ i. i < m) xs → All (λ i. i < n) xs
Below-weaken m n [] h b = tt
Below-weaken m n (x ∷ xs) h b = (omega (arith, b.0), Below-weaken m n xs h b.1)

pub borrows-receivers_of : (t : Table) → borrows (receivers_of t) ≡ ok (channels_of t)
unfolding borrows
borrows-receivers_of [] = refl
borrows-receivers_of ((i, c) ∷ t) = rw (borrows-receivers_of t)

pub get-ids : (t : Table) (n i c : ℕ) → get_elem? t n ≡ some (i, c) → get_elem? (ids t) n ≡ some i
get-ids [] n i c e = cc e
get-ids ((j, d) ∷ t) zero i c e = ground arith
get-ids ((j, d) ∷ t) (suc n) i c e = get-ids t n i c e

pub get-channels :
    (t : Table) (n i c : ℕ) → get_elem? t n ≡ some (i, c) → get_elem? (channels_of t) n ≡ some c
get-channels [] n i c e = cc e
get-channels ((j, d) ∷ t) zero i c e = ground arith
get-channels ((j, d) ∷ t) (suc n) i c e = get-channels t n i c e

pub ids-remove_at : (n : ℕ) (t : Table) → ids (remove_at n t) ≡ remove_at n (ids t)
ids-remove_at n [] = refl
ids-remove_at zero ((i, c) ∷ t) = refl
ids-remove_at (suc n) ((i, c) ∷ t) = ap (◌∷◌ i) (ids-remove_at n t)

pub receivers_of-remove_at :
    (n : ℕ) (t : Table) → receivers_of (remove_at n t) ≡ remove_at n (receivers_of t)
receivers_of-remove_at n [] = refl
receivers_of-remove_at zero ((i, c) ∷ t) = refl
receivers_of-remove_at (suc n) ((i, c) ∷ t) = ap (◌∷◌ (held c)) (receivers_of-remove_at n t)

pub Rising-weaken : (m n : ℕ) (t : Table) → m ≤ n → Rising n t → Rising m t
Rising-weaken m n [] h r = tt
Rising-weaken m n ((i, c) ∷ t) h r = (omega (arith, r.0), r.1)

pub Rising-remove_at : (m n : ℕ) (t : Table) → Rising m t → Rising m (remove_at n t)
Rising-remove_at m n [] r = tt
Rising-remove_at m zero ((i, c) ∷ t) r = Rising-weaken m (suc i) t (omega (arith, r.0)) r.1
Rising-remove_at m (suc n) ((i, c) ∷ t) r = (r.0, Rising-remove_at (suc i) n t r.1)

pub Below-remove_at :
    (m n : ℕ) (xs : List ℕ) → All (λ i. i < m) xs → All (λ i. i < m) (remove_at n xs)
Below-remove_at m n [] b = tt
Below-remove_at m zero (x ∷ xs) b = b.1
Below-remove_at m (suc n) (x ∷ xs) b = (b.0, Below-remove_at m n xs b.1)

pub not_empty :
    (t : Table) (n : ℕ) {x : ℕ × ℕ} → get_elem? t n ≡ some x → is_empty (receivers_of t) ≡ false
unfolding is_empty
not_empty [] n e = cc e
not_empty ((i, c) ∷ t) n e = refl
