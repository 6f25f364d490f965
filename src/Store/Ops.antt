-- ===== src/Store/Ops.antt =====
-- The operations on the tables as commands, for statements about what happens later.
use otel_fleet.Prelude.{ℕ, Map, List, [], ◌∷◌}
use otel_fleet.Store

-- A command with the clock of the database and its arguments.
pub data Op : Type 0 where
  creating_customer : ℕ → Store.NewCustomer → Store.NewApiKey → List Store.Entry → Op
  updating_customer : ℕ → ℕ → Store.CustomerUpdate → List Store.Entry → Op
  deleting_customer : ℕ → ℕ → List Store.Entry → Op
  creating_api_key : ℕ → Store.NewApiKey → List Store.Entry → Op
  revoking_api_key : ℕ → ℕ → ℕ → List Store.Entry → Op
  touching_api_keys : Map ℕ ℕ → Op

-- A transaction that fails is rolled back.
abbrev pub commit {ℓ} : {A : Type ℓ} → Store.Db → Store.Result (A × Store.Db) → Store.Db
commit db (Store.err e) = db
commit db (Store.ok (a, db')) = db'

abbrev pub commit_only : Store.Db → Store.Result Store.Db → Store.Db
commit_only db (Store.err e) = db
commit_only db (Store.ok db') = db'

-- The first key of a new customer is its own, as the service makes it.
unfoldable pub apply : Op → Store.Db → Store.Db
apply (creating_customer now c k es) db =
    commit db (Store.create_customer now c (record k { customer_id = c.id }) es db)
apply (updating_customer now id u es) db = commit db (Store.update_customer now id u es db)
apply (deleting_customer now id es) db = commit_only db (Store.soft_delete_customer now id es db)
apply (creating_api_key now k es) db = commit db (Store.create_api_key now k es db)
apply (revoking_api_key now c id es) db = commit_only db (Store.revoke_api_key now c id es db)
apply (touching_api_keys usages) db = Store.touch_api_keys usages db

unfoldable pub apply_all : List Op → Store.Db → Store.Db
apply_all [] db = db
apply_all (o ∷ os) db = apply_all os (apply o db)
