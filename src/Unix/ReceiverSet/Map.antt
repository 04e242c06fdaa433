-- ===== src/Unix/ReceiverSet/Map.antt =====
-- A map from tokens, as the hash map of `OsIpcReceiverSet` in src/platform/unix/mod.rs is used.
use ipc_channel.Base.{ℕ, ◌≡◌, refl, Option, none, some, List, [], ◌∷◌, arith, ◌==◌, if◌then◌else◌}

module _ {ℓ} {V : Type ℓ} where
  unfoldable pub lookup : ℕ → List (ℕ × V) → Option V
  lookup t [] = none
  lookup t ((u, v) ∷ m) = if u == t then some v else lookup t m

  unfoldable pub insert : ℕ → V → List (ℕ × V) → List (ℕ × V)
  insert t v [] = (t, v) ∷ []
  insert t v ((u, w) ∷ m) = if u == t then (t, v) ∷ m else (u, w) ∷ insert t v m

  unfoldable pub remove : ℕ → List (ℕ × V) → List (ℕ × V)
  remove t [] = []
  remove t ((u, w) ∷ m) = if u == t then remove t m else (u, w) ∷ remove t m

  pub lookup-insert :
      (t u : ℕ) (v : V) (m : List (ℕ × V))
      → lookup u (insert t v m) ≡ (if t == u then some v else lookup u m)
  unfolding lookup insert
  lookup-insert t u v [] = refl
  lookup-insert t u v ((s, w) ∷ m) = ground (arith, lookup-insert t u v m)

  pub lookup-remove :
      (t u : ℕ) (m : List (ℕ × V)) → lookup u (remove t m) ≡ (if t == u then none else lookup u m)
  unfolding lookup remove
  lookup-remove t u [] = ground arith
  lookup-remove t u ((s, w) ∷ m) = ground (arith, lookup-remove t u m)
