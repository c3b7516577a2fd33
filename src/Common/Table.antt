-- ===== src/Common/Table.antt =====
-- A database table with a primary key: rows in insertion order, each under its key. The statements
-- that the program issues: `INSERT OR IGNORE`, `UPDATE … WHERE key = ? AND test`, `UPDATE … WHERE
-- test`, `DELETE … WHERE test`, and `SELECT … WHERE key = ?`.
use mathlib.Core.Path.{◌≡◌, refl}
use mathlib.Core.Bool.{Bool, true, false, ◌&&◌}
use mathlib.Core.List.{List, [], ◌∷◌, ◌++◌}
use mathlib.Core.Option.{Option, none, some}
use native.Mathlib.Omega.{arith}
use devbridge.Common.Lists.{any}
use devbridge.Common.Tests.{if◌then◌else◌, Key, ◌==◌, is_some}

module _ {ℓ κ} {K : Type ℓ} {V : Type κ} ⦃e : Key K⦄ where
  unfoldable pub find : K → List (K × V) → Option V
  find k [] = none
  find k ((j, v) ∷ rows) = if j == k then some v else find k rows

  -- The row under the key is rewritten if it passes the test.
  unfoldable pub update : K → (V → Bool) → (V → V) → List (K × V) → List (K × V)
  update k test set [] = []
  update k test set ((j, v) ∷ rows) =
      if j == k then (j, if test v then set v else v) ∷ rows else (j, v) ∷ update k test set rows

  -- A row is added at the end unless its key is taken.
  unfoldable pub insert : K → V → List (K × V) → List (K × V)
  unfolding find
  insert k v rows = if is_some (find k rows) then rows else rows ++ (k, v) ∷ []

  unfoldable pub update_all : (V → Bool) → (V → V) → List (K × V) → List (K × V)
  update_all test set [] = []
  update_all test set ((j, v) ∷ rows) = (j, if test v then set v else v) ∷ update_all test set rows

  unfoldable pub delete : (V → Bool) → List (K × V) → List (K × V)
  delete test [] = []
  delete test ((j, v) ∷ rows) =
      let rest = delete test rows in if test v then rest else (j, v) ∷ rest

-- Whether an update by key changes a row: the row is there and passes the test.
abbrev pub passes {κ} : {V : Type κ} → (V → Bool) → Option V → Bool
passes test none = false
passes test (some v) = test v

-- What an update by key makes of the row.
abbrev pub after {κ} : {V : Type κ} → (V → Bool) → (V → V) → Option V → Option V
after test set none = none
after test set (some v) = some (if test v then set v else v)

module _ {ℓ κ} {K : Type ℓ} {V : Type κ} ⦃e : Key K⦄ where
  pub find-update :
      (j k : K) (test : V → Bool) (set : V → V) (rows : List (K × V))
      → find j (update k test set rows)
        ≡ (if k == j then after test set (find j rows) else find j rows)
  unfolding find update
  find-update j k test set [] = ground arith
  find-update j k test set ((i, v) ∷ rows) =
      ground (arith, find-update j k test set rows, e.beq_iff i k, e.beq_iff i j, e.beq_iff k j)

  pub find-append :
      (j k : K) (v : V) (rows : List (K × V))
      → find j (rows ++ (k, v) ∷ [])
        ≡ (if is_some (find j rows) then find j rows else if k == j then some v else none)
  unfolding find
  find-append j k v [] = refl
  find-append j k v ((i, w) ∷ rows) = ground (arith, find-append j k v rows)

  pub find-insert :
      (j k : K) (v : V) (rows : List (K × V))
      → find j (insert k v rows)
        ≡ (if is_some (find j rows) then find j rows else if k == j then some v else none)
  unfolding insert
  find-insert j k v rows = ground (arith, find-append j k v rows, e.beq_iff k j)

  pub find-update_all :
      (j : K) (test : V → Bool) (set : V → V) (rows : List (K × V))
      → find j (update_all test set rows) ≡ after test set (find j rows)
  unfolding find update_all
  find-update_all j test set [] = refl
  find-update_all j test set ((i, v) ∷ rows) = ground (arith, find-update_all j test set rows)

-- The primary key: no key is in two rows.
abbrev pub HasUniqueKeys {ℓ κ} : {K : Type ℓ} {V : Type κ} ⦃e : Key K⦄ → List (K × V) → Type κ
HasUniqueKeys [] = Unit
HasUniqueKeys ((k, v) ∷ rows) = (find k rows ≡ none) × HasUniqueKeys rows

module _ {ℓ κ} {K : Type ℓ} {V : Type κ} ⦃e : Key K⦄ where
  pub update-HasUniqueKeys :
      (k : K) (test : V → Bool) (set : V → V) (rows : List (K × V))
      → HasUniqueKeys rows
      → HasUniqueKeys (update k test set rows)
  unfolding update
  update-HasUniqueKeys k test set [] h = h
  update-HasUniqueKeys k test set ((i, v) ∷ rows) h = ground (
    arith,
    find-update i k test set rows,
    e.beq_iff k i,
    e.beq_iff i k,
    update-HasUniqueKeys k test set rows,
  )

  append-HasUniqueKeys :
      (k : K) (v : V) (rows : List (K × V))
      → find k rows ≡ none
      → HasUniqueKeys rows
      → HasUniqueKeys (rows ++ (k, v) ∷ [])
  unfolding find
  append-HasUniqueKeys k v [] n h = (refl, tt)
  append-HasUniqueKeys k v ((i, w) ∷ rows) n h =
      ground
        (arith, find-append i k v rows, e.beq_iff k i, e.beq_iff i k, append-HasUniqueKeys k v rows)

  pub insert-HasUniqueKeys :
      (k : K) (v : V) (rows : List (K × V)) → HasUniqueKeys rows → HasUniqueKeys (insert k v rows)
  unfolding insert
  insert-HasUniqueKeys k v rows h = ground (arith, append-HasUniqueKeys k v rows)

  pub update_all-HasUniqueKeys :
      (test : V → Bool) (set : V → V) (rows : List (K × V))
      → HasUniqueKeys rows
      → HasUniqueKeys (update_all test set rows)
  unfolding update_all
  update_all-HasUniqueKeys test set [] h = h
  update_all-HasUniqueKeys test set ((i, v) ∷ rows) h =
      ground (arith, find-update_all i test set rows, update_all-HasUniqueKeys test set rows)

  pub find-delete :
      (j : K) (test : V → Bool) (rows : List (K × V))
      → HasUniqueKeys rows
      → find j (delete test rows) ≡ (if passes test (find j rows) then none else find j rows)
  unfolding find delete
  find-delete j test [] h = refl
  find-delete j test ((i, v) ∷ rows) h = ground (arith, find-delete j test rows, e.beq_iff i j, h.0)

  pub delete-HasUniqueKeys :
      (test : V → Bool) (rows : List (K × V))
      → HasUniqueKeys rows
      → HasUniqueKeys (delete test rows)
  unfolding delete
  delete-HasUniqueKeys test [] h = h
  delete-HasUniqueKeys test ((i, v) ∷ rows) h =
      ground (arith, find-delete i test rows, delete-HasUniqueKeys test rows)

  -- Under unique keys, a row with the key that passes the test is the row that is found.
  pub any-found :
      (j : K) (v : V) (f : K × V → Bool) (rows : List (K × V))
      → find j rows ≡ some v
      → f (j, v) ≡ true
      → any f rows ≡ true
  unfolding find
  any-found j v f [] q h = ground (arith, q)
  any-found j v f ((i, w) ∷ rows) q h = ground (arith, q, h, any-found j v f rows, e.beq_iff i j)

  pub any-find :
      (j : K) (test : V → Bool) (rows : List (K × V))
      → HasUniqueKeys rows
      → any (λ row. test row.1 && row.0 == j) rows ≡ passes test (find j rows)
  unfolding find
  any-find j test [] h = refl
  any-find j test ((i, v) ∷ rows) h = ground (arith, any-find j test rows, e.beq_iff i j)
