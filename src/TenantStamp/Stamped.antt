-- ===== src/TenantStamp/Stamped.antt =====
-- Lemmas on the stamping of resources by the processor tenantstamp.
use otel_fleet.Prelude.{
  ◌≡◌, ◌≢◌, ◌∙◌, refl, sym, inl, inr, Text, text_eq, ◌==◌, Option, none, some, List, [], ◌∷◌, map,
  if◌then◌else◌, Bool-cases, beq_ne, apart, pos,
}
use otel_fleet.Quota.Admit.{limit_from_auth, limit_of}
use otel_fleet.TenantAuth.Cache
use otel_fleet.TenantAuth.Attributes.{get_attribute}
use otel_fleet.TenantStamp.{
  AttributeMap, Identity, Stamper, attr_tenant_id, attr_client_id, attr_customer_id, identity_from,
  put_unless_empty, stamp, process, drop_batch,
}

-- What a resource shows of an attribute that is put unless it is empty.
abbrev pub shown : Text → Option Text
shown v = if v == [] then none else some v

module _ {A : Type 0} (m : AttributeMap A) where
  -- The resource names the tenant of the identity, its client and its customer, and shows every
  -- other attribute of the resource it was.
  pub record IsStamped (id : Identity) (before after : A) : Type 0 where
    pub tenant : m.get after attr_tenant_id ≡ some id.tenant_id
    pub client : m.get after attr_client_id ≡ shown id.client_id
    pub customer : m.get after attr_customer_id ≡ shown id.customer_id
    pub others :
        (k : Text)
        → attr_tenant_id ≢ k
        → attr_client_id ≢ k
        → attr_customer_id ≢ k
        → m.get after k ≡ m.get before k

  get-put_unless_empty :
      (k v : Text) (a : A) → m.get a k ≡ none → m.get (put_unless_empty m k v a) k ≡ shown v
  get-put_unless_empty k v a h = elim (Bool-cases (v == [])) [
    | inl e ↦ rw e h
    | inr e ↦ rw e (m.get-put_str a k v)
  ]

  get-put_unless_empty_ne :
      (k v j : Text) (a : A) → k ≢ j → m.get (put_unless_empty m k v a) j ≡ m.get a j
  get-put_unless_empty_ne k v j a h = elim (Bool-cases (v == [])) [
    | inl e ↦ rw e refl
    | inr e ↦ rw e (m.get-put_str_ne a k v j h)
  ]

  stamp-IsStamped : (id : Identity) (a : A) → IsStamped id a (stamp m id a)
  unfolding stamp
  stamp-IsStamped id a =
      let a1 = m.remove a attr_tenant_id in
      let a2 = m.remove a1 attr_client_id in
      let a3 = m.remove a2 attr_customer_id in
      let b1 = m.put_str a3 attr_tenant_id id.tenant_id in
      let b2 = put_unless_empty m attr_client_id id.client_id b1 in
      let customer-client : attr_customer_id ≢ attr_client_id =
        apart attr_customer_id attr_client_id refl in
      let customer-tenant : attr_customer_id ≢ attr_tenant_id =
        apart attr_customer_id attr_tenant_id refl in
      let client-tenant : attr_client_id ≢ attr_tenant_id =
        apart attr_client_id attr_tenant_id refl in
      let no_client : m.get b1 attr_client_id ≡ none =
        m.get-put_str_ne a3 attr_tenant_id id.tenant_id attr_client_id (λ e. client-tenant (sym e))
        ∙ m.get-remove_ne a2 attr_customer_id attr_client_id customer-client
        ∙ m.get-remove a1 attr_client_id in
      let no_customer : m.get b2 attr_customer_id ≡ none =
        get-put_unless_empty_ne attr_client_id id.client_id attr_customer_id b1
          (λ e. customer-client (sym e))
        ∙ m.get-put_str_ne a3 attr_tenant_id id.tenant_id attr_customer_id
            (λ e. customer-tenant (sym e))
        ∙ m.get-remove a2 attr_customer_id in
      record {
        tenant =
            get-put_unless_empty_ne attr_customer_id id.customer_id attr_tenant_id b2
              customer-tenant
            ∙ get-put_unless_empty_ne attr_client_id id.client_id attr_tenant_id b1 client-tenant
            ∙ m.get-put_str a3 attr_tenant_id id.tenant_id;
        client =
            get-put_unless_empty_ne attr_customer_id id.customer_id attr_client_id b2
              customer-client
            ∙ get-put_unless_empty attr_client_id id.client_id b1 no_client;
        customer = get-put_unless_empty attr_customer_id id.customer_id b2 no_customer;
        others = λ k t c u.
            get-put_unless_empty_ne attr_customer_id id.customer_id k b2 u
            ∙ get-put_unless_empty_ne attr_client_id id.client_id k b1 c
            ∙ m.get-put_str_ne a3 attr_tenant_id id.tenant_id k t
            ∙ m.get-remove_ne a2 attr_customer_id k u
            ∙ m.get-remove_ne a1 attr_client_id k c
            ∙ m.get-remove_ne a attr_tenant_id k t;
      }

  -- Pairs of resources, before and after.
  abbrev pub AllStamped : Identity → List A → List A → Type 0
  AllStamped id [] [] = Unit
  AllStamped id (a ∷ before) (b ∷ bs) = IsStamped id a b × AllStamped id before bs
  AllStamped id _ _ = ⊥

  all_stamped : (id : Identity) (before : List A) → AllStamped id before (map (stamp m id) before)
  all_stamped id [] = tt
  all_stamped id (a ∷ before) = (stamp-IsStamped id a, all_stamped id before)

  -- A batch of a request that tenantauth let through leaves with every resource under the tenant,
  -- client and customer of that request, whatever the resources claimed before, and with their
  -- other attributes as they were; it is dropped, and counted, only if the tenant has no name. The
  -- limit that the quota reads of the same request is the one that came with the identity.
  pub process-AllStamped :
      (d : Cache.AuthData) (signal : Text) (resources : List A) (s : Stamper)
      → (limit_from_auth (get_attribute d) ≡ pos d.rate_limit_items_per_sec)
        × (d.tenant_id ≡ []
            → process m signal (some (get_attribute d)) resources s ≡ (none, drop_batch signal s))
        × (d.tenant_id ≢ []
            → (after : List A) × (process m signal (some (get_attribute d)) resources s
                ≡ (some after, s))
              × AllStamped
                  (record {
                    tenant_id = d.tenant_id;
                    client_id = d.client_id;
                    customer_id = d.customer_id;
                  })
                  resources
                  after)
  unfolding process identity_from get_attribute limit_from_auth limit_of
  process-AllStamped d signal resources s =
      let id : Identity = record {
        tenant_id = d.tenant_id;
        client_id = d.client_id;
        customer_id = d.customer_id;
      } in
      (
        refl,
        λ e. rw e refl,
        λ n. (
          map (stamp m id) resources,
          rw (beq_ne d.tenant_id [] n) refl,
          all_stamped id resources,
        ),
      )
