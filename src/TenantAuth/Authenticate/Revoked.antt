-- ===== src/TenantAuth/Authenticate/Revoked.antt =====
-- Lemmas on Authenticate of the extension tenantauth: the requests after a refusal.
use otel_fleet.Prelude.{
  ℕ, zero, suc, ◌<◌, Text, text_eq, text_beq_iff, ◌==◌, Bool, false, All, elem, take, Option, none,
  some, List, [], ◌∷◌, ◌≡◌, ◌≢◌, refl, arith, Bool-cases, inl, inr,
}
use otel_fleet.TenantAuth.Headers.{extract_key}
use otel_fleet.TenantAuth.Cache.{AuthData, CacheEntry, LruItem, KeyCache, get, unlink}
use otel_fleet.TenantAuth.Cache.Keys.{keys, keys-unlink, elem-erase_self}
use otel_fleet.TenantAuth.Cache.Index.{IsCache}
use otel_fleet.TenantAuth.Cache.Recency.{put_refines}
use otel_fleet.TenantAuth.Cache.Entries.{Holds, get-Holds, get_returns, put-Holds}
use otel_fleet.TenantAuth.Authenticate.{
  CacheConfig, Response, Request, Done, authenticated, negative_entry, positive_entry, is_fresh,
  is_servable_stale, from_cache, on_error, on_verdict, ask, check_key, authenticate,
}

-- No entry of the key is positive.
abbrev pub IsDenied : Text → KeyCache → Type 0
IsDenied k = Holds (λ j e. j ≡ k → e.valid ≡ false)

-- The reply does not grant the key.
abbrev pub is_grant : Option Response → Bool
is_grant none = false
is_grant (some resp) = resp.valid

abbrev NotServed : Done → Type 0
NotServed r = (d : AuthData) → r.result ≢ authenticated d

from_cache_denied :
    (c : KeyCache) (e : Option CacheEntry)
    → ((x : CacheEntry) → e ≡ some x → x.valid ≡ false)
    → NotServed (from_cache c e)
unfolding from_cache
from_cache_denied c none h d r = cc
from_cache_denied c (some e) h d r = cc (rw (h e refl) at r)

on_error_denied :
    (now : ℕ) (c : KeyCache) (e : Option CacheEntry)
    → ((x : CacheEntry) → e ≡ some x → x.valid ≡ false)
    → NotServed (on_error now (c, e))
unfolding on_error
on_error_denied now c none h d r = cc
on_error_denied now c (some e) h d r = cc (rw (h e refl) at r)

module _ (cfg : CacheConfig) (k : Text) where
  abbrev Denies : Done → Type 0
  Denies r = IsDenied k r.cache

  on_error_keeps :
      (now : ℕ) (c : KeyCache) (e : Option CacheEntry) → IsDenied k c → Denies (on_error now (c, e))
  unfolding on_error
  on_error_keeps now c e h = elim (Bool-cases (is_servable_stale now e)) [
    | inl p ↦ rw p h
    | inr p ↦ rw p h
  ]

  from_cache_keeps : (c : KeyCache) (e : Option CacheEntry) → IsDenied k c → Denies (from_cache c e)
  unfolding from_cache
  from_cache_keeps c none h = h
  from_cache_keeps c (some e) h = elim (Bool-cases e.valid) [ inl p ↦ rw p h | inr p ↦ rw p h ]

  on_verdict_keeps :
      (hash : Text) (now : ℕ) (resp : Response) (c : KeyCache)
      → (hash ≡ k → resp.valid ≡ false)
      → IsDenied k c
      → Denies (on_verdict cfg hash now resp c)
  unfolding on_verdict
  on_verdict_keeps hash now resp c no_grant h = elim (Bool-cases resp.valid) [
    | inl p ↦ simp p (put-Holds _ hash (positive_entry cfg now resp) c (λ e. cc (no_grant e)) h)
    | inr p ↦ simp p (put-Holds _ hash (negative_entry cfg now) c (λ e. refl) h)
  ]

  ask_keeps :
      (hash : Text) (now : ℕ) (reply : Option Response) (c : KeyCache)
      → (hash ≡ k → is_grant reply ≡ false)
      → IsDenied k c
      → Denies (ask cfg hash now reply c)
  unfolding ask
  ask_keeps hash now none c no_grant h =
      on_error_keeps now (get hash c).0 (get hash c).1 (get-Holds _ hash c h)
  ask_keeps hash now (some resp) c no_grant h = on_verdict_keeps hash now resp c no_grant h

  ask_denied :
      (now : ℕ) (reply : Option Response) (c : KeyCache)
      → is_grant reply ≡ false
      → IsDenied k c
      → NotServed (ask cfg k now reply c)
  unfolding ask on_verdict
  ask_denied now none c no_grant h d r =
      on_error_denied now (get k c).0 (get k c).1 (λ x e. get_returns _ k c x h e refl) d r
  ask_denied now (some resp) c no_grant h d r = cc (rw no_grant at r)

  check_keeps :
      (hash : Text) (now : ℕ) (reply : Option Response) (c : KeyCache)
      → (hash ≡ k → is_grant reply ≡ false)
      → IsDenied k c
      → Denies (check_key cfg hash now reply c)
  unfolding check_key
  check_keeps hash now reply c no_grant h =
      let h' = get-Holds _ hash c h in
      elim (Bool-cases (is_fresh now (get hash c).1)) [
        | inl p ↦ rw p (from_cache_keeps (get hash c).0 (get hash c).1 h')
        | inr p ↦ rw p (ask_keeps hash now reply (get hash c).0 no_grant h')
      ]

  check_denied :
      (now : ℕ) (reply : Option Response) (c : KeyCache)
      → is_grant reply ≡ false
      → IsDenied k c
      → NotServed (check_key cfg k now reply c)
  unfolding check_key
  check_denied now reply c no_grant h = elim (Bool-cases (is_fresh now (get k c).1)) [
    | inl p ↦ rw p (from_cache_denied (get k c).0 (get k c).1 (λ x e. get_returns _ k c x h e refl))
    | inr p ↦ rw p (ask_denied now reply (get k c).0 no_grant (get-Holds _ k c h))
  ]

  -- A refusal leaves no positive entry of its key.
  others :
      (l : List LruItem)
      → elem k (keys l) ≡ false
      → All (λ (x : LruItem). x.key ≡ k → x.entry.valid ≡ false) l
  others [] h = tt
  others (x ∷ l) h = (λ e. ground (arith, text_beq_iff x.key k), others l (ground arith))

  take-All : (P : LruItem → Type 0) (n : ℕ) (l : List LruItem) → All P l → All P (take n l)
  take-All P zero l h = tt
  take-All P (suc n) [] h = tt
  take-All P (suc n) (x ∷ l) h = (h.0, take-All P n l h.1)

  refusal_denies :
      (now : ℕ) (resp : Response) (c : KeyCache)
      → IsCache c
      → 0 < c.max_entries
      → resp.valid ≡ false
      → IsDenied k (on_verdict cfg k now resp c).cache
  unfolding on_verdict
  refusal_denies now resp c h positive refused =
      let p = put_refines k (negative_entry cfg now) c positive h in
      let gone : elem k (keys (unlink k c.ll)) ≡ false =
        rw (keys-unlink k c.ll) (elem-erase_self k (keys c.ll) h.indexed.linked_once) in
      rw refused (rw p.0 (take-All _ c.max_entries _ ((λ e. refl), others (unlink k c.ll) gone)))

module _ (cfg : CacheConfig) (sha256 : Text → Text) where
  abbrev hash_of : Request → Text
  hash_of r = sha256 (extract_key r.sources)

  pub run : List Request → KeyCache → KeyCache
  run [] c = c
  run (r ∷ rs) c = run rs (authenticate cfg sha256 r c).cache

  -- No request of the list brings a grant of the key.
  abbrev pub NoGrants : Text → List Request → Type 0
  NoGrants k = All (λ (r : Request). hash_of r ≡ k → is_grant r.reply ≡ false)

  run_keeps :
      (k : Text) (rs : List Request) (c : KeyCache)
      → NoGrants k rs
      → IsDenied k c
      → IsDenied k (run rs c)
  unfolding run authenticate
  run_keeps k [] c n h = h
  run_keeps k (r ∷ rs) c n h = elim (Bool-cases (extract_key r.sources == [])) [
    | inl p ↦ run_keeps k rs _ n.1 (rw p h)
    | inr p ↦ run_keeps k rs _ n.1 (rw p (check_keeps cfg k (hash_of r) r.now r.reply c n.0 h))
  ]

  -- Once the control plane has refused a key, whatever a cache with a positive capacity and its
  -- index in order holds, no later request with the key is let through until a grant of it arrives:
  -- whatever requests come in between, and also where the control plane cannot be reached.
  pub refused_stays_out :
      (now : ℕ) (resp : Response) (c : KeyCache) (rs : List Request) (r : Request) (d : AuthData)
      → IsCache c
      → 0 < c.max_entries
      → resp.valid ≡ false
      → NoGrants (hash_of r) rs
      → is_grant r.reply ≡ false
      → (authenticate cfg sha256 r (run rs (on_verdict cfg (hash_of r) now resp c).cache)).result
        ≢ authenticated d
  unfolding authenticate
  refused_stays_out now resp c rs r d h positive refused none_granted no_grant =
      let start = refusal_denies cfg (hash_of r) now resp c h positive refused in
      let later = run_keeps (hash_of r) rs _ none_granted start in
      elim (Bool-cases (extract_key r.sources == [])) [
        | inl p ↦ rw p (λ e. cc)
        | inr p ↦ rw p (check_denied cfg (hash_of r) r.now r.reply _ no_grant later d)
      ]
