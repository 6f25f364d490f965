-- ===== src/Access/Guard/Admission.antt =====
-- What a request that the guard lets through has shown.
use otel_fleet.Prelude.{
  ◌≡◌, ◌≢◌, ◌⊎◌, ◌∙◌, ap, refl, inl, inr, ℕ, Text, text_eq, text_beq_iff, ◌==◌, true, false, not,
  ◌&&◌, Option, none, some, List, [], elem, is_some, cut_prefix, find?, arith, Bool-cases,
  Option-cases,
}
use otel_fleet.Access.Roles.{at_least, can_mutate, role_admin}
use otel_fleet.Access.Tokens.{
  ApiTokenAuth, bearer, is_expired, match_token, authenticate_api_token, looks_like_api_token,
}
use otel_fleet.Access.Scope.{Principal}
use otel_fleet.Access.Guard.{
  Request, User, GuardStore, Found, Decision, is_admin_only_path, is_mutating, logout_path,
  public_paths, valid_csrf, lacks_role, lacks_admin, scoped_principal, admit_user, guard_token,
  guard_user, guard_found, guard_session, guard,
}
use otel_fleet.Tenants.Keys.{parse_api_token_prefix}

-- The role rules of a request.
pub record IsPermitted (r : Request) (role : Text) : Type 0 where
  pub admin_area : is_admin_only_path r.path ≡ true → at_least role role_admin ≡ true
  pub mutation : is_mutating r.method ≡ true → r.path ≢ logout_path → can_mutate role ≡ true

permitted :
    (r : Request) (role : Text)
    → lacks_admin r role ≡ false
    → lacks_role r role ≡ false
    → IsPermitted r role
permitted r role a b = record {
  admin_area = λ h. ground arith;
  mutation = λ h n. ground (arith, text_beq_iff r.path logout_path);
}

module _ (sha256 : Text → Text) (now : ℕ) (new_token : Text) (users : GuardStore) where
  -- A management token that is not expired, with its role.
  pub record IsToken (r : Request) (p : Principal) : Type 0 where
    pub raw : Text
    pub prefix : Text
    pub toks : List ApiTokenAuth
    pub row : ApiTokenAuth
    pub presented : cut_prefix bearer r.authorization ≡ some raw
    pub shaped : parse_api_token_prefix raw ≡ some prefix
    pub listed : users.active_api_tokens prefix ≡ some toks
    pub found : find? (λ (t : ApiTokenAuth). sha256 raw == t.token_hash) toks ≡ some row
    pub unexpired : is_expired now row.expires_at ≡ false
    pub role_of : p.role ≡ row.role
    pub creator : p.user_id ≡ row.created_by

  -- A session of a user who is not disabled, with the CSRF token where the request changes
  -- something; the scope is the grants of the user, and the whole fleet only for an administrator,
  -- or for a user without grants who is not managed by SCIM.
  pub record IsUser (r : Request) (p : Principal) : Type 0 where
    pub account : User
    pub id : ℕ
    pub logged_in : r.session.user_id ≡ some id
    pub loaded : users.get_user id ≡ Found.user account
    pub enabled : account.disabled_at ≡ none
    pub csrf_shown : is_mutating r.method ≡ true → valid_csrf r.session r.csrf_header ≡ true
    pub role_of : p.role ≡ account.role
    pub whole_fleet :
        p.all_customers ≡ true
        → (at_least account.role role_admin ≡ true)
          ⊎ ((users.list_user_customer_ids account.id ≡ some []) × (account.scim_managed ≡ false))
    pub own_grants :
        p.all_customers ≡ false → users.list_user_customer_ids account.id ≡ some p.allowed_customers

  match_token_lem :
      (hash : Text) (toks : List ApiTokenAuth) (role : Text) (by : Option ℕ)
      → match_token now hash toks ≡ some (role, by)
      → (row : ApiTokenAuth) × (find? (λ (t : ApiTokenAuth). hash == t.token_hash) toks ≡ some row)
        × (is_expired now row.expires_at ≡ false)
        × (role ≡ row.role)
        × (by ≡ row.created_by)
  unfolding match_token
  match_token_lem hash toks role by h =
      elim (Option-cases (find? (λ (t : ApiTokenAuth). hash == t.token_hash) toks)) [
        | inl n ↦ cc (rw (match_token, n) at h)
        | inr (row, e) ↦ elim (Bool-cases (is_expired now row.expires_at)) [
          | inl x ↦ cc (rw (match_token, e, x) at h)
          | inr x ↦ (row, e, x, cc (rw (match_token, e, x) at h), cc (rw (match_token, e, x) at h))
        ]
      ]

  granted_token :
      (r : Request) (p : Principal) (role : Text) (by : Option ℕ)
      → guard_token r (some (role, by)) ≡ Decision.admitted p
      → (p.role ≡ role) × (p.user_id ≡ by) × IsPermitted r role
  unfolding guard_token
  granted_token r p role by h = elim (Bool-cases (lacks_admin r role)) [
    | inl a ↦ cc (rw a at h)
    | inr a ↦ elim (Bool-cases (lacks_role r role)) [
      | inl b ↦ cc (rw (a, b) at h)
      | inr b ↦ (cc (rw (a, b) at h), cc (rw (a, b) at h), permitted r role a b)
    ]
  ]

  token_lem :
      (r : Request) (p : Principal)
      → guard_token r (authenticate_api_token sha256 now users.active_api_tokens r.authorization)
        ≡ Decision.admitted p
      → IsToken r p × IsPermitted r p.role
  unfolding authenticate_api_token guard_token
  token_lem r p h = elim (Option-cases (cut_prefix bearer r.authorization)) [
    | inl n ↦ cc (rw (authenticate_api_token, n) at h)
    | inr (raw, c) ↦ elim (Option-cases (parse_api_token_prefix raw)) [
      | inl n ↦ cc (rw (authenticate_api_token, c, n) at h)
      | inr (prefix, s) ↦ elim (Option-cases (users.active_api_tokens prefix)) [
        | inl n ↦ cc (rw (authenticate_api_token, c, s, n) at h)
        | inr (toks, l) ↦ elim (Option-cases (match_token now (sha256 raw) toks)) [
          | inl n ↦ cc (rw (authenticate_api_token, c, s, l, n) at h)
          | inr ((role, by), m) ↦
              let (e, e', ok) =
                granted_token r p role by (rw (authenticate_api_token, c, s, l, m) at h) in
              let (row, found, unexpired, er, eb) = match_token_lem (sha256 raw) toks role by m in
              (
                record {
                  raw = raw;
                  prefix = prefix;
                  toks = toks;
                  row = row;
                  presented = c;
                  shaped = s;
                  listed = l;
                  found = found;
                  unexpired = unexpired;
                  role_of = e ∙ er;
                  creator = e' ∙ eb;
                },
                rw e ok,
              )
        ]
      ]
    ]
  ]

  scoped :
      (u : User) (tok : Text) (o : Option (List ℕ)) (p : Principal)
      → scoped_principal u tok o ≡ Decision.admitted p
      → (p.role ≡ u.role)
        × (p.all_customers ≡ true → (o ≡ some []) × (u.scim_managed ≡ false))
        × (o ≡ some p.allowed_customers)
  unfolding scoped_principal
  scoped u tok none p h = cc h
  scoped u tok (some grants) p h =
      let a : p.all_customers ≡ ((grants == []) && not u.scim_managed) = cc h in
      (
        cc h,
        λ all.
            let both : ((grants == []) && not u.scim_managed) ≡ true = cc (a, all) in
            (ap some ((text_beq_iff grants []).0 (ground arith)), ground arith),
        cc h,
      )

  entered :
      (r : Request) (u : User) (tok : Text) (o : Option (List ℕ)) (p : Principal)
      → admit_user r u tok o ≡ Decision.admitted p
      → (p.role ≡ u.role)
        × (p.all_customers ≡ true
            → (at_least u.role role_admin ≡ true) ⊎ ((o ≡ some []) × (u.scim_managed ≡ false)))
        × (p.all_customers ≡ false → o ≡ some p.allowed_customers)
  unfolding admit_user
  entered r u tok o p h = elim (Bool-cases (at_least u.role role_admin)) [
    | inl a ↦ let e = rw a at h in (cc e, λ _. inl a, λ f. cc (e, f))
    | inr a ↦ let (x, y, z) = scoped u tok o p (rw a at h) in (x, λ f. inr (y f), λ _. z)
  ]

  user_lem :
      (r : Request) (p : Principal) (id : ℕ) (u : User)
      → r.session.user_id ≡ some id
      → users.get_user id ≡ Found.user u
      → guard_user sha256 now new_token users r u ≡ Decision.admitted p
      → IsUser r p × IsPermitted r p.role
  unfolding guard_user
  user_lem r p id u l g h = elim (Bool-cases (is_some u.disabled_at)) [
    | inl d ↦ cc (rw d at h)
    | inr d ↦ elim (Bool-cases (lacks_admin r u.role)) [
      | inl a ↦ cc (rw (d, a) at h)
      | inr a ↦
          elim (Bool-cases (is_mutating r.method && not (valid_csrf r.session r.csrf_header))) [
            | inl c ↦ cc (rw (d, a, c) at h)
            | inr c ↦ elim (Bool-cases (lacks_role r u.role)) [
              | inl b ↦ cc (rw (d, a, c, b) at h)
              | inr b ↦
                  let (role, whole, own) = entered r u _ _ p (rw (d, a, c, b) at h) in
                  (
                    record {
                      account = u;
                      id = id;
                      logged_in = l;
                      loaded = g;
                      enabled = off u.disabled_at d;
                      csrf_shown = λ m. ground arith;
                      role_of = role;
                      whole_fleet = whole;
                      own_grants = own;
                    },
                    rw role (permitted r u.role a b),
                  )
            ]
          ]
    ]
  ]
    where
      off : (o : Option ℕ) → is_some o ≡ false → o ≡ none
      off none h = refl
      off (some t) h = cc h

  found_lem :
      (r : Request) (p : Principal) (id : ℕ) (f : Found)
      → r.session.user_id ≡ some id
      → users.get_user id ≡ f
      → guard_found sha256 now new_token users r f ≡ Decision.admitted p
      → IsUser r p × IsPermitted r p.role
  unfolding guard_found
  found_lem r p id Found.no_user l g h = cc h
  found_lem r p id Found.store_failed l g h = cc h
  found_lem r p id (Found.user u) l g h = user_lem r p id u l g h

  session_lem :
      (r : Request) (p : Principal) (o : Option ℕ)
      → r.session.user_id ≡ o
      → guard_session sha256 now new_token users r o ≡ Decision.admitted p
      → IsUser r p × IsPermitted r p.role
  unfolding guard_session
  session_lem r p none l h = cc h
  session_lem r p (some id) l h = found_lem r p id (users.get_user id) l refl h

  -- A request that the guard lets through with a principal has shown a management token that is
  -- not expired, or comes from a session of an enabled user with the CSRF token where it changes
  -- something. The principal's role allows the area and the method, and a user without the
  -- administrator's role sees the whole fleet only without grants and outside SCIM, and otherwise
  -- the grants.
  pub guard_admits :
      (r : Request) (p : Principal)
      → guard sha256 now new_token users r ≡ Decision.admitted p
      → (IsToken r p ⊎ IsUser r p) × IsPermitted r p.role
  unfolding guard
  guard_admits r p h = elim (Bool-cases (elem r.path public_paths)) [
    | inl a ↦ cc (rw a at h)
    | inr a ↦ elim (Bool-cases (looks_like_api_token r.authorization)) [
      | inl b ↦ let (t, ok) = token_lem r p (rw (a, b) at h) in (inl t, ok)
      | inr b ↦ let (u, ok) = session_lem r p r.session.user_id refl (rw (a, b) at h) in (inr u, ok)
    ]
  ]
