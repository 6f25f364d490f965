-- ===== src/IngestAuth/Accepted.antt =====
-- Which keys the control plane accepts.
use otel_fleet.Prelude.{
  ◌≡◌, ◌≢◌, ◌⊎◌, inl, inr, refl, sym, ap, ◌∙◌, ℕ, Text, text_eq, text_beq_iff, beq_self, nat_eq,
  nat_beq_iff, ◌==◌, Bool, true, false, ◌&&◌, Option, none, some, List, [], ◌∷◌, find?, filter,
  arith, Bool-cases, Option-cases, All,
}
use mathlib.Core.List.{Memᴰ}
use otel_fleet.Store
use otel_fleet.Store.{
  Db, Customer, ApiKey, AuthKey, auth_key, join_customers, active_keys_by_prefix, is_active,
  is_unrevoked, soft_delete_customer, is_live, is_open_key_of,
}
use otel_fleet.Store.Ops.{Op, apply_all}
use otel_fleet.Store.Deletion.{apply_all-IsGone, soft_delete_customer-IsGone}
use otel_fleet.Tenants.Keys.{parse_key_prefix}
use otel_fleet.IngestAuth.{
  Response, Service, acceptance, is_expired, judge, find_match, look_up, validate_api_key,
}

find?-Mem :
    {A : Type 0} (p : A → Bool) (xs : List A) (x : A)
    → find? p xs ≡ some x
    → Memᴰ x xs × (p x ≡ true)
find?-Mem p [] x h = cc
find?-Mem p (y ∷ xs) x h = elim (Bool-cases (p y)) [
  | inl t ↦ let e : y ≡ x = cc (rw t at h) in (Memᴰ.head (sym e), rw⁻¹ e t)
  | inr t ↦ let r = find?-Mem p xs x (rw t at h) in (Memᴰ.tail r.0, r.1)
]

Mem-uncons : {A : Type 0} (x y : A) (ys : List A) → Memᴰ x (y ∷ ys) → (x ≡ y) ⊎ Memᴰ x ys
Mem-uncons x y ys (Memᴰ.head e) = inl e
Mem-uncons x y ys (Memᴰ.tail m) = inr m

Mem-filter :
    {A : Type 0} (p : A → Bool) (xs : List A) (x : A)
    → Memᴰ x (filter p xs)
    → Memᴰ x xs × (p x ≡ true)
Mem-filter p [] x m = elim m [ ]
Mem-filter p (y ∷ xs) x m = elim (Bool-cases (p y)) [
  | inl t ↦ elim (Mem-uncons x y (filter p xs) (rw t at m)) [
    | inl e ↦ (Memᴰ.head e, rw e t)
    | inr m' ↦ let r = Mem-filter p xs x m' in (Memᴰ.tail r.0, r.1)
  ]
  | inr t ↦ let r = Mem-filter p xs x (rw t at m) in (Memᴰ.tail r.0, r.1)
]

-- A lookup result comes from a row of the keys and the row of its customer.
record IsJoined (db : Db) (ks : List ApiKey) (a : AuthKey) : Type 0 where
  row : ApiKey
  owner : Customer
  in_keys : Memᴰ row ks
  in_customers : Memᴰ owner db.customers
  owns : owner.id ≡ row.customer_id
  joined : auth_key db.customers row ≡ some a
  made : a ≡ record {
    key_id = row.id;
    customer_id = row.customer_id;
    client_id = owner.client_id;
    key_hash = row.key_hash;
    customer_status = owner.status;
    expires_at = row.expires_at;
    rate_limit_items_per_sec = Store.or_zero owner.rate_limit_items_per_sec;
  }

widen :
    (db : Db) (k : ApiKey) (ks : List ApiKey) (a : AuthKey)
    → IsJoined db ks a
    → IsJoined db (k ∷ ks) a
widen db k ks a j = record {
  row = j.row;
  owner = j.owner;
  in_keys = Memᴰ.tail j.in_keys;
  in_customers = j.in_customers;
  owns = j.owns;
  joined = j.joined;
  made = j.made;
}

auth_key-IsJoined :
    (db : Db) (k : ApiKey) (ks : List ApiKey) (a : AuthKey)
    → auth_key db.customers k ≡ some a
    → IsJoined db (k ∷ ks) a
unfolding auth_key
auth_key-IsJoined db k ks a h =
    elim (Option-cases (find? (λ (c : Customer). c.id == k.customer_id) db.customers)) [
      | inl n ↦ cc (rw (auth_key, n) at h)
      | inr (c, s) ↦
          let m = find?-Mem (λ (x : Customer). x.id == k.customer_id) db.customers c s in
          record {
            row = k;
            owner = c;
            in_keys = Memᴰ.head refl;
            in_customers = m.0;
            owns = (nat_beq_iff c.id k.customer_id).0 m.1;
            joined = h;
            made = cc (rw (auth_key, s) at h);
          }
    ]

join-IsJoined :
    (db : Db) (ks : List ApiKey) (a : AuthKey)
    → Memᴰ a (join_customers db.customers ks)
    → IsJoined db ks a
unfolding join_customers
join-IsJoined db [] a m = elim m [ ]
join-IsJoined db (k ∷ ks) a m = elim (Option-cases (auth_key db.customers k)) [
  | inl n ↦ widen db k ks a (join-IsJoined db ks a (rw (join_customers, n) at m))
  | inr (b, s) ↦
      elim (Mem-uncons a b (join_customers db.customers ks) (rw (join_customers, s) at m)) [
        | inl e ↦ auth_key-IsJoined db k ks a (s ∙ ap some (sym e))
        | inr m' ↦ widen db k ks a (join-IsJoined db ks a m')
      ]
]

module _ (sha256 : Text → Text) where
  -- What an acceptance rests on: an open key of the table and its customer.
  pub record IsAccepted (key : Text) (now : ℕ) (db : Db) (r : Response) : Type 0 where
    pub row : ApiKey
    pub owner : Customer
    pub in_keys : Memᴰ row db.api_keys
    pub in_customers : Memᴰ owner db.customers
    pub shaped : parse_key_prefix key ≡ some row.key_prefix
    pub same_hash : row.key_hash ≡ sha256 key
    pub unrevoked : row.revoked_at ≡ none
    pub unexpired : is_expired now row.expires_at ≡ false
    pub owns : owner.id ≡ row.customer_id
    pub active : owner.status ≡ Store.active
    pub names_customer : r.customer_id ≡ some owner.id
    pub names_client : r.client_id ≡ owner.client_id

  judge_accepts :
      (now used_at : ℕ) (o : Option AuthKey) (s : Service) (r : Response)
      → (judge now used_at o s).0 ≡ some r
      → r.valid ≡ true
      → (a : AuthKey) × (o ≡ some a)
        × (is_expired now a.expires_at ≡ false)
        × (is_active a.customer_status ≡ true)
        × (r ≡ acceptance a)
  unfolding judge
  judge_accepts now used_at none s r h v = cc (h, v)
  judge_accepts now used_at (some a) s r h v = elim (Bool-cases (is_expired now a.expires_at)) [
    | inl p ↦ cc (rw p at h)
    | inr p ↦ elim (Bool-cases (is_active a.customer_status)) [
      | inl q ↦ (a, refl, p, q, cc (rw (p, q) at h))
      | inr q ↦ cc (rw (p, q) at h)
    ]
  ]

  -- A key that the control plane accepts has the shape of a key, and is the key of a row with its
  -- prefix and its hash that is neither revoked nor expired and belongs to an active customer,
  -- whose ids the answer carries.
  pub IsAccepted-backed :
      (key : Text) (now used_at : ℕ) (db : Db) (s : Service) (r : Response)
      → (validate_api_key sha256 key now used_at (some db) s).0 ≡ some r
      → r.valid ≡ true
      → IsAccepted key now db r
  unfolding validate_api_key look_up find_match active_keys_by_prefix
  IsAccepted-backed key now used_at db s r h v = elim (Option-cases (parse_key_prefix key)) [
    | inl n ↦ cc (rw (validate_api_key, n) at h, v)
    | inr (prefix, shaped) ↦
        let keys = active_keys_by_prefix prefix db in
        let (a, found, unexpired, is_on, made) =
          judge_accepts now used_at (find_match (sha256 key) keys) s r
            (rw (validate_api_key, shaped) at h) v in
        let m = find?-Mem (λ (k : AuthKey). sha256 key == k.key_hash) keys a found in
        let j = join-IsJoined db _ a m.0 in
        let f =
          Mem-filter (λ (k : ApiKey). (k.key_prefix == prefix) && is_unrevoked k) db.api_keys j.row
            j.in_keys in
        record {
          row = j.row;
          owner = j.owner;
          in_keys = f.0;
          in_customers = j.in_customers;
          shaped =
              shaped
              ∙ ap some (sym ((text_beq_iff j.row.key_prefix prefix).0 (ground (arith, f.1))));
          same_hash =
              ap (λ (k : AuthKey). k.key_hash) (sym j.made)
              ∙ sym ((text_beq_iff (sha256 key) a.key_hash).0 m.1);
          unrevoked = open_row j.row (ground (arith, f.1));
          unexpired = rw (ap (λ (k : AuthKey). k.expires_at) (sym j.made)) unexpired;
          owns = j.owns;
          active =
              on_row j.owner.status
                (rw (ap (λ (k : AuthKey). k.customer_status) (sym j.made)) is_on);
          names_customer = cc (made, j.made, j.owns);
          names_client = cc (made, j.made);
        }
  ]
    where
      open_row : (k : ApiKey) → is_unrevoked k ≡ true → k.revoked_at ≡ none
      open_row k h = elim (Option-cases k.revoked_at) [
        | inl n ↦ n
        | inr (t, e) ↦ cc (rw (is_unrevoked, e) at h)
      ]

      on_row : (st : Store.CustomerStatus) → is_active st ≡ true → st ≡ Store.active
      on_row Store.active h = refl
      on_row Store.suspended h = cc
      on_row Store.deleted h = cc

  live_active : (id : ℕ) (c : Customer) → c.status ≡ Store.active → c.id ≡ id → is_live id c ≡ true
  live_active id c a i = rw (a, i, beq_self id)

  gone_owner :
      (id : ℕ) (cs : List Customer) (c : Customer)
      → All (λ (x : Customer). is_live id x ≡ false) cs
      → Memᴰ c cs
      → c.status ≡ Store.active
      → c.id ≢ id
  gone_owner id [] c g m a i = elim m [ ]
  gone_owner id (x ∷ cs) c g (Memᴰ.head e) a i = cc (
    live_active id x (ap (λ (k : Customer). k.status) (sym e) ∙ a)
        (ap (λ (k : Customer). k.id) (sym e) ∙ i),
    g.0,
  )
  gone_owner id (x ∷ cs) c g (Memᴰ.tail m) a i = gone_owner id cs c g.1 m a i

  -- Once a customer is deleted, no key is accepted for it, whatever is done to the tables later.
  pub deleted_never_accepted :
      (id t now used_at : ℕ) (key : Text) (es : List Store.Entry) (db db' : Db) (os : List Op)
      (s : Service) (r : Response)
      → soft_delete_customer t id es db ≡ Store.ok db'
      → (validate_api_key sha256 key now used_at (some (apply_all os db')) s).0 ≡ some r
      → r.valid ≡ true
      → r.customer_id ≢ some id
  deleted_never_accepted id t now used_at key es db db' os s r deleted h v e =
      let a = IsAccepted-backed key now used_at (apply_all os db') s r h v in
      let g = apply_all-IsGone id os db' (soft_delete_customer-IsGone id t es db db' deleted) in
      gone_owner id (apply_all os db').customers a.owner g.gone a.in_customers a.active
        (cc (a.names_customer, e))
