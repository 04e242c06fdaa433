-- ===== src/Asynch/Routes.antt =====
-- How the thread of src/asynch.rs takes routes from its queue.
use ipc_channel.Base.{
  ℕ, suc, ◌+◌, ◌<◌, ◌≡◌, refl, ap, ◌∙◌, ◌≢◌, inl, inr, Bool, true, some, List, [], ◌∷◌, ◌++◌, arith,
  ==_iff, ==_false, Bool-cases, length,
}
use ipc_channel.Router.{lookup, insert}
use ipc_channel.Router.Dispatch.{lookup-insert}
use ipc_channel.Asynch.{Routing, register, take_routes}

insert-other : (i j v : ℕ) (m : List (ℕ × ℕ)) → j ≢ i → lookup i (insert j v m) ≡ lookup i m
insert-other i j v m n = lookup-insert j i v m ∙ rw (==_false j i n)

cons-other : (i j v : ℕ) (m : List (ℕ × ℕ)) → j ≢ i → lookup i ((j, v) ∷ m) ≡ lookup i m
unfolding lookup
cons-other i j v m n = rw (==_false j i n)

register-added :
    (adds : ℕ → Bool) (receiver stream : ℕ) (r : Routing)
    → adds receiver ≡ true
    → register adds receiver stream r ≡ record r {
      incrementor = suc r.incrementor;
      members = (r.incrementor, receiver) ∷ r.members;
      senders = insert r.incrementor stream r.senders;
    }
unfolding register
register-added adds receiver stream r h = rw h

register_counts :
    (adds : ℕ → Bool) (receiver stream : ℕ) (r : Routing)
    → (register adds receiver stream r).incrementor ≡ suc r.incrementor
unfolding register
register_counts adds receiver stream r = ground arith

-- What is under an identifier that was given out is left alone.
register_keeps :
    (adds : ℕ → Bool) (receiver stream i : ℕ) (r : Routing)
    → i < r.incrementor
    → (lookup i (register adds receiver stream r).senders ≡ lookup i r.senders)
      × (lookup i (register adds receiver stream r).members ≡ lookup i r.members)
unfolding register
register_keeps adds receiver stream i r h = elim (Bool-cases (adds receiver)) [
  | inr n ↦ rw n (refl, refl)
  | inl y ↦ rw y (
    insert-other i r.incrementor stream r.senders (λ e. omega arith),
    cons-other i r.incrementor receiver r.members (λ e. omega arith),
  )
]

take_routes_keeps :
    (adds : ℕ → Bool) (ps : List (ℕ × ℕ)) (i : ℕ) (r : Routing)
    → i < r.incrementor
    → (lookup i (take_routes adds ps r).senders ≡ lookup i r.senders)
      × (lookup i (take_routes adds ps r).members ≡ lookup i r.members)
unfolding take_routes
take_routes_keeps adds [] i r h = (refl, refl)
take_routes_keeps adds ((receiver, stream) ∷ rest) i r h =
    let one = register_keeps adds receiver stream i r h in
    let later =
      take_routes_keeps adds rest i (register adds receiver stream r)
        (omega (arith, register_counts adds receiver stream r)) in
    (later.0 ∙ one.0, later.1 ∙ one.1)

take_routes-empties :
    (adds : ℕ → Bool) (ps : List (ℕ × ℕ)) (r : Routing) → (take_routes adds ps r).pending ≡ []
unfolding take_routes
take_routes-empties adds [] r = refl
take_routes-empties adds ((receiver, stream) ∷ rest) r =
    take_routes-empties adds rest (register adds receiver stream r)

registered :
    (adds : ℕ → Bool) (before after : List (ℕ × ℕ)) (receiver stream id : ℕ) (r : Routing)
    → adds receiver ≡ true
    → r.incrementor + length before ≡ id
    → (lookup id (take_routes adds (before ++ ((receiver, stream) ∷ after)) r).senders
        ≡ some stream)
      × (lookup id (take_routes adds (before ++ ((receiver, stream) ∷ after)) r).members
          ≡ some receiver)
unfolding take_routes lookup
registered adds [] after receiver stream id r h e =
    let same : r.incrementor ≡ id = omega arith in
    let later =
      take_routes_keeps adds after id (register adds receiver stream r)
        (omega (arith, register_counts adds receiver stream r)) in
    (
      later.0
          ∙ ap (λ q. lookup id q.senders) (register-added adds receiver stream r h)
          ∙ lookup-insert r.incrementor id stream r.senders
          ∙ rw ((==_iff r.incrementor id).1 same),
      later.1
          ∙ ap (λ q. lookup id q.members) (register-added adds receiver stream r h)
          ∙ rw ((==_iff r.incrementor id).1 same),
    )
registered adds ((a, b) ∷ before) after receiver stream id r h e =
    registered adds before after receiver stream id (register adds a b r) h
      (omega (arith, register_counts adds a b r))

-- Each route in the queue, if its receiver can be added, is registered under an identifier of its own,
-- which counts from the next free one: there the set has its receiver, and the map its stream, also
-- after the routes behind it. Nothing is left in the queue.
pub take_routes-registers :
    (adds : ℕ → Bool) (before after : List (ℕ × ℕ)) (receiver stream : ℕ) (r : Routing)
    → adds receiver ≡ true
    → let id = r.incrementor + length before in
      let taken = take_routes adds (before ++ ((receiver, stream) ∷ after)) r in
      (lookup id taken.senders ≡ some stream)
      × (lookup id taken.members ≡ some receiver)
      × (taken.pending ≡ [])
take_routes-registers adds before after receiver stream r h =
    let found =
      registered adds before after receiver stream (r.incrementor + length before) r h refl in
    (found.0, found.1, take_routes-empties adds (before ++ ((receiver, stream) ∷ after)) r)
