-- ===== src/Pipelines/Secrets/Decryption.antt =====
-- Secrets that are read again: EncryptGraphSecrets and DecryptGraphSecrets of
-- internal/pipelines/secrets.go.
use otel_fleet.Prelude.{
  ◌≡◌, ◌⊎◌, refl, ◌∙◌, sym, ap, subst, ℕ, suc, Text, text_eq, ◌==◌, Bool-cases, text_beq→eq, inl,
  inr, Option, none, some, List, [], ◌∷◌, All, All-append, Map, empty, length, if◌then◌else◌, arith,
}
use otel_fleet.Crypto.Base64.{IsByte, std_decode-encode}
use otel_fleet.Crypto.Cipher.{Aead, Cipher, done, failed, encrypt, decrypt}
use otel_fleet.Crypto.Envelope.{Opens, rotated-decrypt}
use otel_fleet.Pipelines.Graph.{Value, null, bool, num, str, arr, obj, as_string, Graph, Component}
use otel_fleet.Pipelines.Secrets.{
  Attempt, ok, redacted_sentinel, enc_value, new_enc_value, encrypt_secret, encrypt_graph_secrets,
  decrypt_secret, decrypt_graph_secrets, index_graph, seal_at, restore_at, Encrypting, stored,
}
use otel_fleet.Pipelines.Secrets.Marked.{Each}
use otel_fleet.Pipelines.Secrets.Index.{puts}
use otel_fleet.Pipelines.Secrets.Graphs.{PlainComponent, at_graph, secrets_of_graph, graph_index}
use otel_fleet.Pipelines.Secrets.Chain.{graph_meets}

-- What the code relies on in the cipher and the random bytes: the first decrypter is the primary key,
-- which opens what it sealed, the nonces are there and have its size, and all is made of bytes.
pub record Works (c : Cipher) (rand : ℕ → Option Text) : Type 0 where
  pub rest : List Aead
  pub primary_first : c.decrypters ≡ c.primary ∷ rest
  pub opens : Opens c.primary
  pub nonce_drawn :
      (n : ℕ)
      → (nonce : Text) × (rand n ≡ some nonce)
        × (length nonce ≡ c.primary.nonce_size)
        × All IsByte nonce
  pub sealed_bytes : (nonce plaintext : Text) → All IsByte (c.primary.seal nonce plaintext)

done_inj : (a b : Text) → done a ≡ done b → a ≡ b
done_inj a b h = cc

-- What a stored secret reads as: markers are decrypted.
abbrev pub revealed : Cipher → Value → Value
revealed c x = elim (enc_value x) [
  | none ↦ x
  | some ct ↦ elim (decrypt (some c) ct) [ done pt ↦ str pt | failed e ↦ x ]
]

-- What is meant by a value in an edited graph: the sentinel stands for the secret that is stored
-- under the same path.
abbrev pub meant : Cipher → Map Text Value → Text → Value → Value
meant c table p x = elim (as_string (some x)) [
  | none ↦ x
  | some s ↦
      if s == redacted_sentinel
      then elim (table p) [ none ↦ x | some prev ↦ revealed c prev ]
      else x
]

-- A stored secret that can be read: a marker that the cipher decrypts, or a plain text from the time
-- before encryption.
abbrev pub IsReadable : Cipher → Value → Type 0
IsReadable c prev =
    ((ct : Text) × (pt : Text) × (enc_value prev ≡ some ct) × (decrypt (some c) ct ≡ done pt))
    ⊎ ((s : Text) × (prev ≡ str s))

-- A value of an edited graph: no marker, and the sentinel only where a secret is stored under the
-- same path.
abbrev pub IsEdit : Cipher → Map Text Value → Text → Value → Type 0
IsEdit c table p x =
    (enc_value x ≡ none)
    × (x ≡ str redacted_sentinel → (prev : Value) × (table p ≡ some prev) × IsReadable c prev)

-- The table that the previous version gives.
abbrev pub table_of : List Component → Option Graph → Map Text Value
table_of all none = empty
table_of all (some prev) = puts empty (secrets_of_graph all prev)

index_graph_lem :
    (all : List Component) (prev : Option Graph) → index_graph all prev ≡ ok (table_of all prev)
unfolding index_graph
index_graph_lem all none = refl
index_graph_lem all (some prev) = rw (graph_index all prev empty)

module _ (c : Cipher) (rand : ℕ → Option Text) (works : Works c rand) where
  sealed_reads :
      (n : ℕ) (s : Text)
      → (ct : Text) × (encrypt (some c) (rand n) s ≡ done ct)
        × (decrypt (some c) ct ≡ done s)
        × All IsByte ct
  unfolding encrypt
  sealed_reads n s =
      let (nonce, q, size, bytes) = works.nonce_drawn n in
      let (ct, e, d) =
        rotated-decrypt c c [] works.rest nonce s works.opens size works.primary_first tt in
      (
        ct,
        rw q e,
        d,
        subst (All IsByte) (done_inj _ ct e)
            (omega arith, All-append IsByte nonce _ bytes (works.sealed_bytes nonce s)),
      )

  marker_reads :
      (p : Text) (x : Value) (ct s : Text) (t : Unit {0})
      → enc_value x ≡ some ct
      → decrypt (some c) ct ≡ done s
      → decrypt_secret (some c) p x t ≡ ok (str s, t)
  unfolding decrypt_secret
  marker_reads p x ct s t q d = rw (q, decrypt_secret, d)

  new_enc_value_lem : (ct : Text) → All IsByte ct → enc_value (new_enc_value ct) ≡ some ct
  unfolding enc_value new_enc_value
  new_enc_value_lem ct b = std_decode-encode ct b

  abbrev NoIssues : Encrypting → Type 0
  NoIssues st = st.issues ≡ []

  -- A step of the first walk gives a value, and that reads as w.
  abbrev Reads : Attempt (Value × Encrypting) → Text → Value → Unit {0} → Type 0
  Reads step p w t =
      (r : Value × Encrypting) × (step ≡ ok r)
      × NoIssues r.1
      × (decrypt_secret (some c) p r.0 t ≡ ok (w, t))

  -- What is sealed reads as the text that was to be sealed.
  seal_meets :
      (p : Text) (x : Value) (s : Text) (st : Encrypting) (t : Unit {0})
      → NoIssues st
      → Reads (seal_at (some c) rand p x s st) p (str s) t
  unfolding seal_at
  seal_meets p x s st t n =
      let (ct, q, d, b) = sealed_reads st.drawn s in
      (
        (new_enc_value ct, record st { drawn = suc st.drawn }),
        rw (q, seal_at),
        n,
        marker_reads p (new_enc_value ct) ct s t (new_enc_value_lem ct b) d,
      )

  -- A value that is no text is stored and read as it is.
  untouched :
      (table : Map Text Value) (p : Text) (x : Value) (st : Encrypting) (t : Unit {0})
      → enc_value x ≡ none
      → as_string (some x) ≡ none
      → NoIssues st
      → Reads (encrypt_secret (some c) rand table p x st) p x t
  unfolding encrypt_secret decrypt_secret
  untouched table p x st t h a n = ((x, st), rw (h, encrypt_secret, a), n, rw (h, decrypt_secret))

  revealed_marker :
      (x : Value) (ct s : Text)
      → enc_value x ≡ some ct
      → decrypt (some c) ct ≡ done s
      → revealed c x ≡ str s
  revealed_marker x ct s q d = rw (q, revealed, d)

  restored_meets :
      (p : Text) (x prev : Value) (st : Encrypting) (t : Unit {0})
      → IsReadable c prev
      → NoIssues st
      → Reads (restore_at (some c) rand p x (some prev) st) p (revealed c prev) t
  unfolding restore_at enc_value
  restored_meets p x prev st t (inl (ct, pt, q, d)) n = (
    (prev, st),
    rw (q, restore_at),
    n,
    marker_reads p prev ct pt t q d ∙ ap (λ v. ok (v, t)) (sym (revealed_marker prev ct pt q d)),
  )
  restored_meets p x prev st t (inr (s, q)) n =
      subst (λ v. Reads (restore_at (some c) rand p x (some v) st) p (revealed c v) t) (sym q)
        (seal_meets p x s st t n)

  secret_meets :
      (table : Map Text Value) (p : Text) (x : Value) (st : Encrypting) (t : Unit {0})
      → IsEdit c table p x
      → NoIssues st
      → Reads (encrypt_secret (some c) rand table p x st) p (meant c table p x) t
  unfolding encrypt_secret
  secret_meets table p null st t h n = untouched table p null st t h.0 refl n
  secret_meets table p (bool b) st t h n = untouched table p (bool b) st t h.0 refl n
  secret_meets table p (num m) st t h n = untouched table p (num m) st t h.0 refl n
  secret_meets table p (arr xs) st t h n = untouched table p (arr xs) st t h.0 refl n
  secret_meets table p (obj fs) st t h n = untouched table p (obj fs) st t h.0 refl n
  secret_meets table p (str s) st t h n = elim (Bool-cases (s == redacted_sentinel)) [
    | inl q ↦
        let (prev, k, o) = h.1 (ap str (text_beq→eq s redacted_sentinel q)) in
        rw (q, k) (restored_meets p (str s) prev st t o n)
    | inr q ↦ rw q (seal_meets p (str s) s st t n)
  ]

  -- With a master key whose cipher works, an edited graph is stored without issues, and reads as what
  -- was meant: every secret as it was entered, and for each sentinel the secret that the previous
  -- version has under the same path. The edit holds no markers of its own, and a sentinel only where
  -- the previous version has a secret that can be read.
  pub decrypt-encrypt :
      (all : List Component) (g : Graph) (prev : Option Graph)
      → All PlainComponent all
      → Each (IsEdit c (table_of all prev)) (secrets_of_graph all g)
      → (g' : Graph) × (encrypt_graph_secrets (some c) rand all g prev ≡ ok (stored g'))
        × (decrypt_graph_secrets (some c) all g'
            ≡ ok (at_graph (meant c (table_of all prev)) all g))
  unfolding encrypt_graph_secrets decrypt_graph_secrets
  decrypt-encrypt all g prev q k =
      let table = table_of all prev in
      let start : Encrypting = record { drawn = 0; issues = [] } in
      let (r, a, n, l) =
        graph_meets (encrypt_secret (some c) rand table) (decrypt_secret (some c)) (meant c table) _
          NoIssues (secret_meets table) all g start tt q k refl in
      (r.0, rw (index_graph_lem all prev, a, n), rw l)
