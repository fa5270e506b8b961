-- ===== src/Prelude/Table.antt =====
-- A table of rows with a primary key: `get(pk=k)` and `filter(pk=k).update(...)`.
use mathlib.Core.Option
use deploy_hub.Prelude.{
  ℕ, ◌≡◌, refl, Option, none, some, List, [], ◌∷◌, arith, ◌==◌, if◌then◌else◌, false,
}

module _ {ℓ} {A : Type ℓ} (pk : A → ℕ) where
  unfoldable pub find : ℕ → List A → Option A
  find k [] = none
  find k (r ∷ rs) = let rest = find k rs in if pk r == k then some r else rest

  unfoldable pub update : ℕ → (A → A) → List A → List A
  update k f [] = []
  update k f (r ∷ rs) = (if pk r == k then f r else r) ∷ update k f rs

  -- A row that is rewritten without its key is found again.
  pub find-update_self :
      (k : ℕ) (f : A → A) (rows : List A)
      → ((r : A) → pk (f r) ≡ pk r)
      → find k (update k f rows) ≡ Option.map f (find k rows)
  unfolding find update
  find-update_self k f [] keeps = refl
  find-update_self k f (r ∷ rows) keeps = ground (arith, keeps r, find-update_self k f rows keeps)

  pub find-update_ne :
      (k j : ℕ) (f : A → A) (rows : List A)
      → ((r : A) → pk (f r) ≡ pk r)
      → (k == j) ≡ false
      → find j (update k f rows) ≡ find j rows
  unfolding find update
  find-update_ne k j f [] keeps ne = refl
  find-update_ne k j f (r ∷ rows) keeps ne =
      ground (arith, keeps r, find-update_ne k j f rows keeps)
