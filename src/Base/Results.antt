-- ===== src/Base/Results.antt =====
-- What a call of Rust code comes to: `Ok`, `Err`, a panic, or a wait for another process.
use mathlib.Core.Option.{Option, none, some}
use mathlib.Core.Path.{◌≡◌, refl}

pub data Result {ℓ κ} (E : Type ℓ) (A : Type κ) : Type (ℓ ⊔ κ) where
  -- An `unwrap` of `None` or `Err`, an index out of range, a failed assertion.
  panic : Result E A
  -- A blocking call that nothing has woken.
  waits : Result E A
  err : E → Result E A
  ok : A → Result E A

module _ {ℓ κ μ} {E : Type ℓ} {A : Type κ} {B : Type μ} where
  infixl 5 ◌>>=◌
  -- `?` without a conversion.
  abbrev pub ◌>>=◌ : Result E A → (A → Result E B) → Result E B
  panic >>= next = panic
  waits >>= next = waits
  err e >>= next = err e
  ok a >>= next = next a

  -- A chain that ends well has gone well at each step.
  pub >>=-ok :
      (r : Result E A) (next : A → Result E B) {b : B}
      → (r >>= next) ≡ ok b
      → (x : A) × (r ≡ ok x) × (next x ≡ ok b)
  >>=-ok panic next e = cc
  >>=-ok waits next e = cc
  >>=-ok (err x) next e = cc
  >>=-ok (ok x) next e = (x, refl, e)

-- `map_err`, and the conversion that `?` makes.
abbrev pub map_err {ℓ κ μ} :
    {E : Type ℓ} {F : Type κ} {A : Type μ} → (E → F) → Result E A → Result F A
map_err f (ok a) = ok a
map_err f (err e) = err (f e)
map_err f panic = panic
map_err f waits = waits

-- `unwrap` of an `Option`.
abbrev pub unwrap {ℓ κ} : {E : Type ℓ} {A : Type κ} → Option A → Result E A
unwrap none = panic
unwrap (some a) = ok a

-- A call that changes a state, after one that left it as `s`: what is no `Ok` ends the function.
abbrev pub on_ok {σ ℓ κ μ} :
    {S : Type σ} {E : Type ℓ} {A : Type κ} {B : Type μ}
    → S
    → Result E A
    → (A → S × Result E B)
    → S × Result E B
on_ok s (ok a) f = f a
on_ok s (err e) f = (s, err e)
on_ok s panic f = (s, panic)
on_ok s waits f = (s, waits)

-- What holds of the state before and after the second call holds at the end.
pub on_ok_keeps {σ ℓ κ μ π} :
    {S : Type σ} {E : Type ℓ} {A : Type κ} {B : Type μ} (P : S → Type π) (s : S) (r : Result E A)
    (f : A → S × Result E B)
    → P s
    → ((a : A) → P (f a).0)
    → P (on_ok s r f).0
on_ok_keeps P s (ok a) f h k = k a
on_ok_keeps P s (err e) f h k = h
on_ok_keeps P s panic f h k = h
on_ok_keeps P s waits f h k = h

-- A call on a state that the first has changed: what is no `Ok` ends the function.
abbrev pub chain {σ ℓ κ μ} :
    {S : Type σ} {E : Type ℓ} {A : Type κ} {B : Type μ}
    → S × Result E A
    → (S → A → S × Result E B)
    → S × Result E B
chain (s, r) f = on_ok s r (f s)

pub chain_keeps {σ ℓ κ μ π} :
    {S : Type σ} {E : Type ℓ} {A : Type κ} {B : Type μ} (P : S → Type π) (o : S × Result E A)
    (f : S → A → S × Result E B)
    → P o.0
    → ((s : S) (a : A) → P s → P (f s a).0)
    → P (chain o f).0
chain_keeps P (s, r) f h k = on_ok_keeps P s r (f s) h (λ a. k s a h)

-- A chain that ends well has gone well at each step.
pub on_ok-ok {σ ℓ κ μ} :
    {S : Type σ} {E : Type ℓ} {A : Type κ} {B : Type μ} (s s' : S) (r : Result E A)
    (f : A → S × Result E B) {b : B}
    → on_ok s r f ≡ (s', ok b)
    → (a : A) × (r ≡ ok a) × (f a ≡ (s', ok b))
on_ok-ok s s' (ok a) f e = (a, refl, e)
on_ok-ok s s' (err x) f e = cc e
on_ok-ok s s' panic f e = cc e
on_ok-ok s s' waits f e = cc e

-- What follows from every way that a chain can have gone well, follows.
pub >>=-each {ℓ κ μ ν} :
    {E : Type ℓ} {A : Type κ} {B : Type μ} {C : Type ν} (r : Result E A) (next : A → Result E B)
    {b : B}
    → (r >>= next) ≡ ok b
    → ((x : A) → r ≡ ok x → next x ≡ ok b → C)
    → C
>>=-each panic next e k = absurd (cc e)
>>=-each waits next e k = absurd (cc e)
>>=-each (err x) next e k = absurd (cc e)
>>=-each (ok x) next e k = k x refl e

-- What holds of the outcome where the first call does not go well, and of each way on where it does.
pub on_ok_holds {σ ℓ κ μ π} :
    {S : Type σ} {E : Type ℓ} {A : Type κ} {B : Type μ} (Q : S × Result E B → Type π) (s : S)
    (r : Result E A) (f : A → S × Result E B)
    → ((e : E) → Q (s, err e)) × Q (s, panic) × Q (s, waits)
    → ((a : A) → r ≡ ok a → Q (f a))
    → Q (on_ok s r f)
on_ok_holds Q s (ok a) f h k = k a refl
on_ok_holds Q s (err e) f (h, _, _) k = h e
on_ok_holds Q s panic f (_, h, _) k = h
on_ok_holds Q s waits f (_, _, h) k = h
