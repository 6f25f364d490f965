-- ===== src/TenantAuth/Authenticate/Grants.antt =====
-- Lemmas on Authenticate of the extension tenantauth: the answers of the control plane behind it.
use mathlib.Core.List.{Memᴰ}
use otel_fleet.Prelude.{
  ℕ, ◌+◌, ◌≤◌, ◌<◌, max, Text, text_eq, ◌==◌, true, if◌then◌else◌, Option, none, some, List, [],
  ◌∷◌, ◌++◌, ◌≡◌, refl, ap, ◌∙◌, ◌⊎◌, arith, Bool-cases, Option-cases, inl, inr,
}
use otel_fleet.TenantAuth.Headers.{extract_key}
use otel_fleet.TenantAuth.Cache.{AuthData, CacheEntry, KeyCache, new_key_cache, get}
use otel_fleet.TenantAuth.Cache.Entries.{Holds, get-Holds, get_returns, put-Holds, Holds-map}
use otel_fleet.TenantAuth.Authenticate.{
  CacheConfig, Response, Request, Done, authenticated, fresh_for, data_from, negative_entry,
  positive_entry, is_fresh, is_servable_stale, from_cache, on_error, on_verdict, ask, check_key,
  authenticate,
}

-- A positive answer of the control plane about the key with this hash.
pub record Grant : Type 0 where
  pub hash : Text
  pub at : ℕ
  pub resp : Response

-- The grant, if any, that a reply to the question for this hash is.
abbrev pub granted : Text → ℕ → Option Response → List Grant
granted hash now none = []
granted hash now (some resp) =
    if resp.valid then record { hash = hash; at = now; resp = resp } ∷ [] else []

module _ (cfg : CacheConfig) where
  -- The grant that the request obtains: only a question that is asked can be answered.
  pub grants_of_check : Text → ℕ → Option Response → KeyCache → List Grant
  grants_of_check hash now reply c =
      if is_fresh now (get hash c).1 then [] else granted hash now reply

  -- A positive entry stands for a grant, with the times that the configuration gives it.
  pub record IsBacked (G : List Grant) (k : Text) (e : CacheEntry) : Type 0 where
    pub grant : Grant
    pub member : Memᴰ grant G
    pub same_key : grant.hash ≡ k
    pub same_data : e.data_of ≡ some (data_from grant.resp)
    pub fresh : e.fresh_until ≤ grant.at + cfg.ttl
    pub stale : e.stale_until ≡ grant.at + cfg.stale_if_error

  abbrev pub Backed : List Grant → Text → CacheEntry → Type 0
  Backed G k e = e.valid ≡ true → IsBacked G k e

  -- What a served request rests on.
  pub record IsJustified (G : List Grant) (k : Text) (now : ℕ) (d : AuthData) : Type 0 where
    pub grant : Grant
    pub member : Memᴰ grant G
    pub same_key : grant.hash ≡ k
    pub same_data : d ≡ data_from grant.resp
    pub recent : (grant.at ≡ now) ⊎ (now < grant.at + max cfg.ttl cfg.stale_if_error)

  fresh_for-le : (resp : Response) → fresh_for cfg resp ≤ cfg.ttl
  unfolding fresh_for
  fresh_for-le resp = ground arith

  Backed-append :
      (H G : List Grant) (k : Text) (e : CacheEntry) → Backed G k e → Backed (H ++ G) k e
  Backed-append H G k e b v =
      let i = b v in
      record {
        grant = i.grant;
        member = later H i.member;
        same_key = i.same_key;
        same_data = i.same_data;
        fresh = i.fresh;
        stale = i.stale;
      }
    where
      later : (H : List Grant) {g : Grant} → Memᴰ g G → Memᴰ g (H ++ G)
      later [] m = m
      later (x ∷ H) m = Memᴰ.tail (later H m)

  justify :
      (G : List Grant) (k : Text) (now : ℕ) (e : CacheEntry) (d : AuthData)
      → IsBacked G k e
      → (now < e.fresh_until) ⊎ (now < e.stale_until)
      → e.data_of ≡ some d
      → IsJustified G k now d
  justify G k now e d b t s = record {
    grant = b.grant;
    member = b.member;
    same_key = b.same_key;
    same_data = cc (b.same_data);
    recent = inr (omega (arith, b.fresh, b.stale));
  }

  module _ (G : List Grant) (k : Text) (now : ℕ) where
    from_cache_lem :
        (c : KeyCache) (e : Option CacheEntry) (d : AuthData)
        → ((x : CacheEntry) → e ≡ some x → Backed G k x)
        → is_fresh now e ≡ true
        → (from_cache c e).result ≡ authenticated d
        → IsJustified G k now d
    unfolding from_cache
    from_cache_lem c none d b f r = cc
    from_cache_lem c (some e) d b f r = elim (Bool-cases e.valid) [
      | inl v ↦ elim (Option-cases e.data_of) [
        | inl n ↦ cc (rw (v, n) at r)
        | inr (a, s) ↦
            justify G k now e d (b e refl v) (inl (ground arith))
              (s ∙ ap some (cc (rw (v, s) at r)))
      ]
      | inr v ↦ cc (rw v at r)
    ]

    on_error_lem :
        (c : KeyCache) (e : Option CacheEntry) (d : AuthData)
        → ((x : CacheEntry) → e ≡ some x → Backed G k x)
        → (on_error now (c, e)).result ≡ authenticated d
        → IsJustified G k now d
    unfolding on_error
    on_error_lem c none d b r = cc
    on_error_lem c (some e) d b r = elim (Bool-cases (is_servable_stale now (some e))) [
      | inl v ↦ elim (Option-cases e.data_of) [
        | inl n ↦ cc (rw (v, n) at r)
        | inr (a, s) ↦
            justify G k now e d (b e refl (ground arith)) (inr (ground arith))
              (s ∙ ap some (cc (rw (v, s) at r)))
      ]
      | inr v ↦ cc (rw v at r)
    ]

  -- After a step that obtains the grants of `H` all entries are backed, and what is served is
  -- justified.
  abbrev Sound : List Grant → Text → ℕ → List Grant → Done → Type 0
  Sound G k now H r =
      Holds (Backed (H ++ G)) r.cache
      × ((d : AuthData) → r.result ≡ authenticated d → IsJustified (H ++ G) k now d)

  module _ (G : List Grant) (k : Text) (now : ℕ) (c : KeyCache) (h : Holds (Backed G) c) where
    cache-on_error : (c' : KeyCache) (e : Option CacheEntry) → (on_error now (c', e)).cache ≡ c'
    unfolding on_error
    cache-on_error c' e = ground arith

    error-Sound : Sound G k now [] (on_error now (get k c))
    error-Sound = (
      rw (cache-on_error (get k c).0 (get k c).1) (get-Holds (Backed G) k c h),
      λ d r. on_error_lem G k now (get k c).0 (get k c).1 d (λ x. get_returns (Backed G) k c x h) r,
    )

    verdict-Sound :
        (resp : Response) → Sound G k now (granted k now (some resp)) (on_verdict cfg k now resp c)
    unfolding on_verdict
    verdict-Sound resp = elim (Bool-cases resp.valid) [
      | inl v ↦
          let g : Grant = record { hash = k; at = now; resp = resp } in
          let own : IsBacked (g ∷ G) k (positive_entry cfg now resp) = record {
            grant = g;
            member = Memᴰ.head refl;
            same_key = refl;
            same_data = refl;
            fresh = omega (arith, fresh_for-le resp);
            stale = refl;
          } in
          simp v (
            put-Holds (Backed (g ∷ G)) k (positive_entry cfg now resp) c (λ _. own)
                (Holds-map (Backed G) (Backed (g ∷ G)) (Backed-append (g ∷ []) G) c h),
            λ d r. record {
              grant = g;
              member = Memᴰ.head refl;
              same_key = refl;
              same_data = cc;
              recent = inl refl;
            },
          )
      | inr v ↦ simp v (put-Holds (Backed G) k (negative_entry cfg now) c (λ f. cc) h, λ d r. cc)
    ]

  cache-from_cache : (c : KeyCache) (e : Option CacheEntry) → (from_cache c e).cache ≡ c
  unfolding from_cache
  cache-from_cache c none = refl
  cache-from_cache c (some e) = ground arith

  ask-Sound :
      (G : List Grant) (k : Text) (now : ℕ) (reply : Option Response) (c : KeyCache)
      → Holds (Backed G) c
      → Sound G k now (granted k now reply) (ask cfg k now reply c)
  unfolding ask
  ask-Sound G k now none c h = error-Sound G k now c h
  ask-Sound G k now (some resp) c h = verdict-Sound G k now c h resp

  check-Sound :
      (G : List Grant) (k : Text) (now : ℕ) (reply : Option Response) (c : KeyCache)
      → Holds (Backed G) c
      → Sound G k now (grants_of_check k now reply c) (check_key cfg k now reply c)
  unfolding check_key grants_of_check
  check-Sound G k now reply c h =
      let c' = (get k c).0 in
      let e = (get k c).1 in
      let h' = get-Holds (Backed G) k c h in
      elim (Bool-cases (is_fresh now e)) [
        | inl f ↦ rw f (
          rw (cache-from_cache c' e) h',
          λ d r. from_cache_lem G k now c' e d (λ x. get_returns (Backed G) k c x h) f r,
        )
        | inr f ↦ rw f (ask-Sound G k now reply c' h')
      ]

module _ (cfg : CacheConfig) (sha256 : Text → Text) where
  -- The grants that a request obtains.
  pub grants_of : Request → KeyCache → List Grant
  grants_of r c =
      let key = extract_key r.sources in
      if key == [] then [] else grants_of_check cfg (sha256 key) r.now r.reply c

  -- The cache and the grants after the requests so far; the mutex of the cache and the order in
  -- which the answers arrive make them a sequence.
  unfoldable pub history : List Request → KeyCache → List Grant → KeyCache × List Grant
  history [] c G = (c, G)
  history (r ∷ rs) c G = history rs (authenticate cfg sha256 r c).cache (grants_of r c ++ G)

  authenticate-Sound :
      (G : List Grant) (r : Request) (c : KeyCache)
      → Holds (Backed cfg G) c
      → Sound cfg G
          (sha256 (extract_key r.sources))
          r.now
          (grants_of r c)
          (authenticate cfg sha256 r c)
  unfolding authenticate grants_of
  authenticate-Sound G r c h = elim (Bool-cases (extract_key r.sources == [])) [
    | inl p ↦ rw p (h, λ d e. cc)
    | inr p ↦ rw p (check-Sound cfg G (sha256 (extract_key r.sources)) r.now r.reply c h)
  ]

  history-Holds :
      (rs : List Request) (c : KeyCache) (G : List Grant)
      → Holds (Backed cfg G) c
      → Holds (Backed cfg (history rs c G).1) (history rs c G).0
  unfolding history
  history-Holds [] c G h = h
  history-Holds (r ∷ rs) c G h =
      history-Holds rs (authenticate cfg sha256 r c).cache (grants_of r c ++ G)
        (authenticate-Sound G r c h).0

  -- After any requests, one that is let through carries the data of a grant that the control plane
  -- gave for its own key: at this request, or no longer ago than the larger of the two cache times.
  pub fail_open_bounded :
      (n : ℕ) (rs : List Request) (r : Request) (d : AuthData)
      → let (c, G) = history rs (new_key_cache n) [] in
        (authenticate cfg sha256 r c).result ≡ authenticated d
        → IsJustified cfg (grants_of r c ++ G) (sha256 (extract_key r.sources)) r.now d
  fail_open_bounded n rs r d served_d =
      let now_held = history-Holds rs (new_key_cache n) [] tt in
      (authenticate-Sound (history rs (new_key_cache n) []).1 r (history rs (new_key_cache n) []).0
          now_held).1
        d served_d
