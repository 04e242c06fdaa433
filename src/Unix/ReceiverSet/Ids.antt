-- ===== src/Unix/ReceiverSet/Ids.antt =====
-- The identifiers of `OsIpcReceiverSet` in src/platform/unix/mod.rs: no two receivers in a set share
-- one, and none is given out twice.
use ipc_channel.Base.{
  ℕ, ◌+◌, ◌%◌, ◌^◌, ◌<◌, ◌≡◌, ◌≢◌, refl, inl, inr, Option, none, some, List, [], ◌∷◌, ok, arith,
  ◌==◌, Bool-cases, All, if◌then◌else◌,
}
use ipc_channel.Errors.{IoError}
use ipc_channel.Unix.Kernel.{Kernel}
use ipc_channel.Unix.Handles.{OsIpcReceiver}
use ipc_channel.Unix.ReceiverSet.Map.{lookup, insert, lookup-insert}
use ipc_channel.Unix.ReceiverSet.{PollEntry, OsIpcReceiverSet, token_of, add}

abbrev pub Entry : Type 0
Entry = ℕ × PollEntry

abbrev pub Distinct : List Entry → Type 0
Distinct [] = Unit {0}
Distinct ((t, e) ∷ m) = All (λ (x : Entry). x.1.id ≢ e.id) m × Distinct m

-- The identifiers in the set are distinct, and were all given out; an entry's token is its
-- descriptor's.
pub record IsValid (s : OsIpcReceiverSet) : Type 0 where
  pub below : All (λ (x : Entry). x.1.id < s.incrementor) s.pollfds
  pub distinct : Distinct s.pollfds
  pub named : All (λ (x : Entry). x.0 ≡ token_of x.1.fd) s.pollfds

module _ {κ} (P : Entry → Type κ) where
  All-insert : (t : ℕ) (e : PollEntry) (m : List Entry) → P (t, e) → All P m → All P (insert t e m)
  unfolding insert
  All-insert t e [] p h = (p, tt)
  All-insert t e ((u, w) ∷ m) p h = elim (Bool-cases (u == t)) [
    | inl y ↦ rw y (p, h.1)
    | inr n ↦ rw n (h.0, All-insert t e m p h.1)
  ]

  All-weaken {μ} :
      (Q : Entry → Type μ) (m : List Entry) → ((x : Entry) → P x → Q x) → All P m → All Q m
  All-weaken Q [] f h = tt
  All-weaken Q (x ∷ m) f h = (f x h.0, All-weaken Q m f h.1)

insert-Distinct :
    (t : ℕ) (e : PollEntry) (m : List Entry)
    → All (λ (x : Entry). x.1.id ≢ e.id) m
    → Distinct m
    → Distinct (insert t e m)
unfolding insert
insert-Distinct t e [] h d = (tt, tt)
insert-Distinct t e ((u, w) ∷ m) h d = elim (Bool-cases (u == t)) [
  | inl y ↦ rw y (h.1, d.1)
  | inr n ↦ rw n (
    All-insert (λ (x : Entry). x.1.id ≢ w.id) t e m (λ q. h.0 (omega arith)) d.0,
    insert-Distinct t e m h.1 d.1,
  )
]

-- Below the last identifier of 64 bits, `add` keeps the set valid, also when the registration
-- fails.
pub add-IsValid :
    (register : Option IoError) (receiver : OsIpcReceiver) (s : OsIpcReceiverSet)
    → s.incrementor + 1 < 2 ^ 64
    → IsValid s
    → IsValid (add register receiver s).0
unfolding add
add-IsValid none r s h v =
    let next : s.incrementor < (s.incrementor + 1) % 2 ^ 64 = omega arith in
    record {
      below =
          All-insert (λ (x : Entry). x.1.id < (s.incrementor + 1) % 2 ^ 64) _ _ s.pollfds next
            (weaken next);
      distinct =
          insert-Distinct _ _ s.pollfds
            (All-weaken (λ (x : Entry). x.1.id < s.incrementor) (λ x. x.1.id ≢ s.incrementor)
              s.pollfds (λ x q e. omega arith) v.below)
            v.distinct;
      named =
          All-insert (λ (x : Entry). x.0 ≡ token_of x.1.fd) (token_of r.fd)
            (record { id = s.incrementor; fd = r.fd }) s.pollfds refl v.named;
    }
  where
    weaken :
        s.incrementor < (s.incrementor + 1) % 2 ^ 64
        → All (λ (x : Entry). x.1.id < (s.incrementor + 1) % 2 ^ 64) s.pollfds
    weaken n =
        All-weaken (λ (x : Entry). x.1.id < s.incrementor)
          (λ x. x.1.id < (s.incrementor + 1) % 2 ^ 64) s.pollfds (λ x q. omega arith) v.below
add-IsValid (some e) r s h v = record {
  below =
      All-weaken (λ (x : Entry). x.1.id < s.incrementor)
        (λ x. x.1.id < (s.incrementor + 1) % 2 ^ 64) s.pollfds (λ x q. omega arith) v.below;
  distinct = v.distinct;
  named = v.named;
}

-- In a valid set, and when the registration succeeds, `add` gives an identifier that nothing in the
-- set has, under which the receiver's descriptor, and no other, is then known.
pub add-fresh :
    (receiver : OsIpcReceiver) (s : OsIpcReceiverSet) (u : ℕ)
    → IsValid s
    → ((add none receiver s).1 ≡ ok s.incrementor)
      × All (λ (x : Entry). x.1.id ≢ s.incrementor) s.pollfds
      × (lookup u (add none receiver s).0.pollfds ≡ (
          if token_of receiver.fd == u
          then some (record { id = s.incrementor; fd = receiver.fd })
          else lookup u s.pollfds))
unfolding add
add-fresh r s u v = (
  refl,
  All-weaken (λ (x : Entry). x.1.id < s.incrementor) (λ x. x.1.id ≢ s.incrementor) s.pollfds
      (λ x q e. omega arith) v.below,
  lookup-insert _ u _ s.pollfds,
)
