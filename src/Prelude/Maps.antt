-- ===== src/Prelude/Maps.antt =====
-- A Go map, as the function from its keys to what it holds. The program reads, writes and deletes
-- by key, and where it ranges over a map the order does not matter.
use mathlib.Core.Option.{Option, none, some}
use mathlib.Core.Bool.{Bool}
use otel_fleet.Prelude.Tests.{if◌then◌else◌, Eq, ◌==◌}

abbrev pub Map {ℓ κ} : Type ℓ → Type κ → Type (ℓ ⊔ κ)
Map K V = K → Option V

module _ {ℓ κ} {K : Type ℓ} {V : Type κ} where
  abbrev pub empty : Map K V
  empty k = none

  -- for k, v := range m { if drop(v) { delete(m, k) } }
  abbrev pub delete_where : (V → Bool) → Map K V → Map K V
  delete_where drop_it m k = elim (m k) [
    | none ↦ none
    | some v ↦ if drop_it v then none else some v
  ]

module _ {ℓ κ} {K : Type ℓ} {V : Type κ} ⦃e : Eq K⦄ where
  -- m[k] = v
  abbrev pub put : Map K V → K → V → Map K V
  put m k v j = if k == j then some v else m j

  -- delete(m, k)
  abbrev pub del : Map K V → K → Map K V
  del m k j = if k == j then none else m j
