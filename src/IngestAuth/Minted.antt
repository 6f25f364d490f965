-- ===== src/IngestAuth/Minted.antt =====
-- Lemmas on the keys of IssueAPIKey at ValidateAPIKey (internal/tenants, internal/ingestauth).
use otel_fleet.Prelude.{
  ◌≡◌, inl, inr, ℕ, Text, text_eq, nat_eq, beq_self, ◌==◌, Bool, true, false, ◌&&◌, some, List, [],
  ◌∷◌, ◌++◌, any, find?, filter, length, Bool-cases, Option-cases, All,
}
use otel_fleet.Store
use otel_fleet.Store.{
  Db, Customer, ApiKey, NewApiKey, AuthKey, api_key_row, auth_key, join_customers,
  active_keys_by_prefix, is_active, is_unrevoked, is_live, create_api_key, insert_api_key,
  with_audit, write_audit, get_customer, or_zero,
}
use otel_fleet.Tenants.Keys.{GeneratedKey, generate_api_key}
use otel_fleet.Tenants.Keys.Mint.{IsByte, parse-generate_api_key}
use otel_fleet.IngestAuth.{
  Service, acceptance, is_expired, judge, find_match, look_up, validate_api_key,
}

module _ (customers : List Customer) (p : ApiKey → Bool) (hash : Text) (row : ApiKey)
    (a : AuthKey) where
  match_last :
      (ks : List ApiKey)
      → All (λ (k : ApiKey). (hash == k.key_hash) ≡ false) ks
      → p row ≡ true
      → auth_key customers row ≡ some a
      → (hash == a.key_hash) ≡ true
      → find_match hash (join_customers customers (filter p (ks ++ row ∷ []))) ≡ some a
  unfolding find_match join_customers auth_key
  match_last [] n t j h = rw (t, join_customers, j, h)
  match_last (k ∷ ks) n t j h =
      let rest = match_last ks n.1 t j h in
      elim (Bool-cases (p k)) [
        | inl q ↦ elim (Option-cases (find? (λ (c : Customer). c.id == k.customer_id) customers)) [
          | inl e ↦ rw (q, join_customers, auth_key, e) rest
          | inr (c, e) ↦ rw (q, join_customers, auth_key, e, n.0) rest
        ]
        | inr q ↦ rw q rest
      ]

-- The new key as a lookup gives it.
abbrev pub new_auth_key : NewApiKey → Customer → AuthKey
new_auth_key n c = record {
  key_id = n.id;
  customer_id = n.customer_id;
  client_id = c.client_id;
  key_hash = n.key_hash;
  customer_status = c.status;
  expires_at = n.expires_at;
  rate_limit_items_per_sec = or_zero c.rate_limit_items_per_sec;
}

auth_key_new :
    (now : ℕ) (n : NewApiKey) (cs : List Customer) (c : Customer)
    → find? (λ (x : Customer). x.id == n.customer_id) cs ≡ some c
    → auth_key cs (api_key_row now n) ≡ some (new_auth_key n c)
unfolding auth_key
auth_key_new now n cs c e = rw (auth_key, e)

insert_stored :
    (now : ℕ) (n : NewApiKey) (es : List Store.Entry) (db db' : Db) (row : ApiKey)
    → with_audit es (insert_api_key now n db) ≡ Store.ok (row, db')
    → db' ≡ write_audit es (record db { api_keys = db.api_keys ++ api_key_row now n ∷ [] })
unfolding insert_api_key with_audit
insert_stored now n es db db' row h =
    elim (Bool-cases (any (λ (k : ApiKey). k.id == n.id) db.api_keys)) [
      | inl p ↦ cc (rw p at h)
      | inr p ↦ elim (Bool-cases (any (λ (c : Customer). c.id == n.customer_id) db.customers)) [
        | inl q ↦ cc (rw (p, q) at h)
        | inr q ↦ cc (rw (p, q) at h)
      ]
    ]

create_stored :
    (now : ℕ) (n : NewApiKey) (es : List Store.Entry) (db db' : Db) (row : ApiKey)
    → create_api_key now n es db ≡ Store.ok (row, db')
    → db' ≡ write_audit es (record db { api_keys = db.api_keys ++ api_key_row now n ∷ [] })
unfolding create_api_key
create_stored now n es db db' row h = step (get_customer n.customer_id db) h
  where
    step :
        (r : Store.Result Customer)
        → elim r [
          | Store.err e ↦ Store.err e
          | Store.ok c ↦ with_audit es (insert_api_key now n db)
        ]
          ≡ Store.ok (row, db')
        → db' ≡ write_audit es (record db { api_keys = db.api_keys ++ api_key_row now n ∷ [] })
    step (Store.err e) q = cc q
    step (Store.ok c) q = insert_stored now n es db db' row q

module _ (sha256 : Text → Text) (buf : Text) (bytes : All IsByte buf) (long : length buf ≡ 36) where
  -- A key that was minted from 36 bytes and stored for an active customer is accepted as long as it
  -- has not expired, with the ids and the quota of the customer, if no other key has its hash.
  pub new_key_accepted :
      (g : GeneratedKey) (n : NewApiKey) (now t used_at : ℕ) (es : List Store.Entry) (db db' : Db)
      (row : ApiKey) (c : Customer) (s : Service)
      → generate_api_key sha256 (some buf) ≡ some g
      → n.key_prefix ≡ g.prefix
      → n.key_hash ≡ g.hash
      → create_api_key now n es db ≡ Store.ok (row, db')
      → find? (λ (x : Customer). x.id == n.customer_id) db.customers ≡ some c
      → c.status ≡ Store.active
      → is_expired t n.expires_at ≡ false
      → All (λ (k : ApiKey). (sha256 g.secret == k.key_hash) ≡ false) db.api_keys
      → (validate_api_key sha256 g.secret t used_at (some db') s).0
        ≡ some (acceptance (new_auth_key n c))
  unfolding validate_api_key look_up active_keys_by_prefix judge write_audit
  new_key_accepted g n now t used_at es db db' row c s minted same_prefix same_hash created found on
        unexpired others =
      let (parsed, hashed) = parse-generate_api_key sha256 buf bytes long g minted in
      let made = create_stored now n es db db' row created in
      let a = new_auth_key n c in
      let m : find_match (sha256 g.secret) (active_keys_by_prefix g.prefix db') ≡ some a = rw made (
        match_last db.customers (λ (k : ApiKey). (k.key_prefix == g.prefix) && is_unrevoked k)
          (sha256 g.secret) (api_key_row now n) a db.api_keys others
          (rw (same_prefix, beq_self g.prefix)) (auth_key_new now n db.customers c found)
          (rw (same_hash, hashed, beq_self (sha256 g.secret)))) in
      rw (validate_api_key, parsed, m) (rw (unexpired, on))
