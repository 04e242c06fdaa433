-- ===== src/Base/Lists.antt =====
-- Lists measured and indexed by native numbers, under the library's names.
use Prim.Native.Nat.{ℕ, zero, suc, ◌+◌, ◌-◌, ◌≤◌, min}
use mathlib.Core.Path.{◌≡◌, refl, ap, ◌∙◌, sym, subst}
use mathlib.Core.List.{List, [], ◌∷◌, ◌++◌, map, append_assoc}
use mathlib.Core.Option.{Option, none, some}
use native.Mathlib.Omega.{arith}

module _ {ℓ} {A : Type ℓ} where
  abbrev pub length : List A → ℕ
  length [] = 0
  length (x ∷ xs) = suc (length xs)

  abbrev pub get_elem? : List A → ℕ → Option A
  get_elem? [] i = none
  get_elem? (x ∷ xs) zero = some x
  get_elem? (x ∷ xs) (suc i) = get_elem? xs i

  abbrev pub set : List A → ℕ → A → List A
  set [] i v = []
  set (x ∷ xs) zero v = v ∷ xs
  set (x ∷ xs) (suc i) v = x ∷ set xs i v

  abbrev pub take : ℕ → List A → List A
  take zero xs = []
  take (suc n) [] = []
  take (suc n) (x ∷ xs) = x ∷ take n xs

  abbrev pub drop : ℕ → List A → List A
  drop zero xs = xs
  drop (suc n) [] = []
  drop (suc n) (x ∷ xs) = drop n xs

  -- `Vec::remove`, where the position is in range; a no-op past the end.
  abbrev pub remove_at : ℕ → List A → List A
  remove_at i [] = []
  remove_at zero (x ∷ xs) = xs
  remove_at (suc i) (x ∷ xs) = x ∷ remove_at i xs

  abbrev pub replicate : ℕ → A → List A
  replicate zero a = []
  replicate (suc n) a = a ∷ replicate n a

  abbrev pub concat : List (List A) → List A
  concat [] = []
  concat (xs ∷ xss) = xs ++ concat xss

  abbrev pub All {κ} : (A → Type κ) → List A → Type κ
  All P [] = Unit {κ}
  All P (x ∷ xs) = P x × All P xs

  -- `slice[i..j]`, for i ≤ j ≤ length.
  abbrev pub slice : ℕ → ℕ → List A → List A
  slice i j xs = take (j - i) (drop i xs)

  pub length-append : (xs ys : List A) → length (xs ++ ys) ≡ length xs + length ys
  length-append [] ys = omega arith
  length-append (x ∷ xs) ys = omega (arith, length-append xs ys)

  pub length-take : (n : ℕ) (xs : List A) → length (take n xs) ≡ min n (length xs)
  length-take zero xs = omega arith
  length-take (suc n) [] = omega arith
  length-take (suc n) (x ∷ xs) = omega (arith, length-take n xs)

  pub length-drop : (n : ℕ) (xs : List A) → length (drop n xs) ≡ length xs - n
  length-drop zero xs = omega arith
  length-drop (suc n) [] = omega arith
  length-drop (suc n) (x ∷ xs) = omega (arith, length-drop n xs)

  pub length-replicate : (n : ℕ) (a : A) → length (replicate n a) ≡ n
  length-replicate zero a = refl
  length-replicate (suc n) a = ap suc (length-replicate n a)

  pub take_all : (n : ℕ) (xs : List A) → length xs ≤ n → take n xs ≡ xs
  take_all zero [] h = refl
  take_all zero (x ∷ xs) h = absurd (omega arith)
  take_all (suc n) [] h = refl
  take_all (suc n) (x ∷ xs) h = ap (◌∷◌ x) (take_all n xs (omega arith))

  -- A prefix of known length is taken off.
  pub take-append : (n : ℕ) (xs ys : List A) → length xs ≡ n → take n (xs ++ ys) ≡ xs
  take-append zero [] ys h = refl
  take-append (suc n) [] ys h = absurd (omega arith)
  take-append zero (x ∷ xs) ys h = absurd (omega arith)
  take-append (suc n) (x ∷ xs) ys h = ap (◌∷◌ x) (take-append n xs ys (omega arith))

  pub drop-append : (n : ℕ) (xs ys : List A) → length xs ≡ n → drop n (xs ++ ys) ≡ ys
  drop-append zero [] ys h = refl
  drop-append (suc n) [] ys h = absurd (omega arith)
  drop-append zero (x ∷ xs) ys h = absurd (omega arith)
  drop-append (suc n) (x ∷ xs) ys h = drop-append n xs ys (omega arith)

  -- A prefix followed by the next slice is the longer prefix.
  pub take-append-slice : (i j : ℕ) (xs : List A) → i ≤ j → take i xs ++ slice i j xs ≡ take j xs
  take-append-slice zero zero xs h = refl
  take-append-slice zero (suc j) xs h =
      let e : suc j - 0 ≡ suc j = omega arith in ap (λ n. take n xs) e
  take-append-slice (suc i) zero xs h = absurd (omega arith)
  take-append-slice (suc i) (suc j) [] h = empty (suc j - suc i)
    where
      empty : (n : ℕ) → take n [] ≡ []
      empty zero = refl
      empty (suc n) = refl
  take-append-slice (suc i) (suc j) (x ∷ xs) h =
      let e : suc j - suc i ≡ j - i = omega arith in
      ap (◌∷◌ x)
        (ap (λ n. take i xs ++ take n (drop i xs)) e ∙ take-append-slice i j xs (omega arith))

  pub length-slice : (i j : ℕ) (xs : List A) → i ≤ j → j ≤ length xs → length (slice i j xs) ≡ j - i
  length-slice i j xs h k = omega (arith, length-take (j - i) (drop i xs), length-drop i xs)

  -- The element behind a prefix, read and overwritten.
  pub get_elem?-append :
      (xs : List A) (y : A) (zs : List A) (n : ℕ)
      → length xs ≡ n
      → get_elem? (xs ++ (y ∷ zs)) n ≡ some y
  get_elem?-append [] y zs zero h = refl
  get_elem?-append [] y zs (suc n) h = absurd (omega arith)
  get_elem?-append (x ∷ xs) y zs zero h = absurd (omega arith)
  get_elem?-append (x ∷ xs) y zs (suc n) h = get_elem?-append xs y zs n (omega arith)

  pub set-append :
      (xs : List A) (y y' : A) (zs : List A) (n : ℕ)
      → length xs ≡ n
      → set (xs ++ (y ∷ zs)) n y' ≡ (xs ++ (y' ∷ [])) ++ zs
  set-append [] y y' zs zero h = refl
  set-append [] y y' zs (suc n) h = absurd (omega arith)
  set-append (x ∷ xs) y y' zs zero h = absurd (omega arith)
  set-append (x ∷ xs) y y' zs (suc n) h = ap (◌∷◌ x) (set-append xs y y' zs n (omega arith))

  pub concat-append : (xss yss : List (List A)) → concat (xss ++ yss) ≡ concat xss ++ concat yss
  concat-append [] yss = refl
  concat-append (xs ∷ xss) yss =
      ap (◌++◌ xs) (concat-append xss yss) ∙ sym (append_assoc xs (concat xss) (concat yss))

  pub All-append {κ} : (P : A → Type κ) (xs ys : List A) → All P xs → All P ys → All P (xs ++ ys)
  All-append P (x ∷ xs) ys (h, hs) k = (h, All-append P xs ys hs k)
  All-append P [] ys _ k = k

  pub All-take {κ} : (P : A → Type κ) (n : ℕ) (xs : List A) → All P xs → All P (take n xs)
  All-take P zero xs h = tt
  All-take P (suc n) [] h = tt
  All-take P (suc n) (x ∷ xs) (h, hs) = (h, All-take P n xs hs)

  pub All-set {κ} :
      (P : A → Type κ) (xs : List A) (i : ℕ) (v : A) → P v → All P xs → All P (set xs i v)
  All-set P [] i v h hs = tt
  All-set P (x ∷ xs) zero v h (_, hs) = (h, hs)
  All-set P (x ∷ xs) (suc i) v h (k, hs) = (k, All-set P xs i v h hs)

  pub get_elem?-All {κ} :
      (P : A → Type κ) (xs : List A) (i : ℕ) {x : A} → All P xs → get_elem? xs i ≡ some x → P x
  get_elem?-All P [] i h e = absurd (cc e)
  get_elem?-All P (x ∷ xs) zero (h, _) e = subst P (cc e) h
  get_elem?-All P (x ∷ xs) (suc i) (_, hs) e = get_elem?-All P xs i hs e

module _ {ℓ κ} {A : Type ℓ} {B : Type κ} where
  pub length-map : (f : A → B) (xs : List A) → length (map f xs) ≡ length xs
  length-map f [] = refl
  length-map f (x ∷ xs) = ap suc (length-map f xs)
