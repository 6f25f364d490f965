-- ===== src/Examples/SecretRuns.antt =====
-- Secrets of a pipeline with one exporter, under ciphers that write every number in unary behind the
-- number of their key.
use otel_fleet.Prelude.{
  ◌≡◌, ◌≢◌, refl, ◌∙◌, ap, ℕ, zero, suc, ◌+◌, Text, codes, nat_eq, ◌==◌, beq_self, apart, text_eq,
  Option, none, some, List, [], ◌∷◌, All, if◌then◌else◌, arith, inl, inr,
}
use otel_fleet.Crypto.Base64.{IsByte, std_decode}
use otel_fleet.Crypto.Cipher.{Aead, Cipher, done, encrypt, decrypt}
use otel_fleet.Crypto.Envelope.{Opens, rotated-decrypt}
use otel_fleet.Pipelines.Graph.{
  Value, null, bool, num, str, arr, obj, end, field, Graph, exporter, Component,
}
use otel_fleet.Pipelines.Secrets.{
  ok, stored, refused, redacted_sentinel, redacted_without_secret, enc_value, redact_graph_secrets,
  encrypt_graph_secrets, decrypt_graph_secrets, transform_graph, index_graph, encrypt_secret,
}
use otel_fleet.Pipelines.Secrets.Marked.{secrets, at_secrets}
use otel_fleet.Pipelines.Secrets.Graphs.{at_graph}
use otel_fleet.Pipelines.Secrets.Redaction.{KeepsNull, redact_hides}
use otel_fleet.Pipelines.Secrets.Editing.{encrypt-redact}
use otel_fleet.Pipelines.Secrets.Decryption.{Works, meant, table_of, decrypt-encrypt}

abbrev unary : Text → Text
unary [] = []
unary (zero ∷ s) = 0 ∷ unary s
unary (suc n ∷ s) = 1 ∷ unary (n ∷ s)

abbrev from_unary : ℕ → Text → Text
from_unary k [] = []
from_unary k (zero ∷ s) = k ∷ from_unary 0 s
from_unary k (suc _ ∷ s) = from_unary (suc k) s

abbrev opened_with : ℕ → Text → Option Text
opened_with key [] = none
opened_with key (k ∷ s) = if k == key then some (from_unary 0 s) else none

abbrev key_of : ℕ → Aead
key_of key = record {
  nonce_size = 1;
  seal = λ nonce plaintext. key ∷ unary plaintext;
  unseal = λ nonce body. opened_with key body;
}

from_unary-unary :
    (k n : ℕ) (s : Text) → from_unary k (unary (n ∷ s)) ≡ (k + n) ∷ from_unary 0 (unary s)
from_unary-unary k zero s = ap (λ (m : ℕ). m ∷ from_unary 0 (unary s)) (omega arith)
from_unary-unary k (suc n) s =
    from_unary-unary (suc k) n s ∙ ap (λ (m : ℕ). m ∷ from_unary 0 (unary s)) (omega arith)

unary_round : (s : Text) → from_unary 0 (unary s) ≡ s
unary_round [] = refl
unary_round (n ∷ s) =
    from_unary-unary 0 n s
    ∙ ap (λ (m : ℕ). m ∷ from_unary 0 (unary s)) (omega arith)
    ∙ ap (λ r. n ∷ r) (unary_round s)

key_of-Opens : (key : ℕ) → Opens (key_of key)
key_of-Opens key nonce plaintext = rw (beq_self key) (ap some (unary_round plaintext))

unary-IsByte : (s : Text) → All IsByte (unary s)
unary-IsByte [] = tt
unary-IsByte (zero ∷ s) = (omega arith, unary-IsByte s)
unary-IsByte (suc n ∷ s) = (omega arith, unary-IsByte (n ∷ s))

abbrev old_cipher : Cipher
old_cipher = record { primary = key_of 7; decrypters = key_of 7 ∷ [] }

abbrev new_cipher : Cipher
new_cipher = record { primary = key_of 8; decrypters = key_of 8 ∷ key_of 7 ∷ [] }

rotated-decrypt_example :
    (ciphertext : Text) × (encrypt (some old_cipher) (some (5 ∷ [])) (codes "s3cret")
      ≡ done ciphertext)
    × (decrypt (some new_cipher) ciphertext ≡ done (codes "s3cret"))
rotated-decrypt_example =
    rotated-decrypt old_cipher new_cipher (key_of 8 ∷ []) [] (5 ∷ []) (codes "s3cret")
      (key_of-Opens 7) refl refl (refl, tt)

abbrev rand : ℕ → Option Text
rand n = some (5 ∷ [])

old_cipher-Works : Works old_cipher rand
old_cipher-Works = record {
  rest = [];
  primary_first = refl;
  opens = key_of-Opens 7;
  nonce_drawn = λ n. (5 ∷ [], refl, refl, (omega arith, tt));
  sealed_bytes = λ nonce plaintext. (omega arith, unary-IsByte plaintext);
}

-- otlphttp, with secret headers.
abbrev otlphttp : Component
otlphttp = record {
  type = codes "otlphttp";
  kind = exporter;
  schema =
      field (codes "properties")
        (obj (
          field (codes "headers")
            (obj (
              field (codes "additionalProperties")
                (obj (field (codes "format") (str (codes "password")) end)) end))
            end))
        end;
}

abbrev with_headers : Value → Value → Graph
with_headers a b = record {
  signals = codes "logs" ∷ [];
  processors = [];
  exporters =
      record {
        type = codes "otlphttp";
        name = none;
        config = some (
            field (codes "endpoint") (str (codes "https://b")) (
              field (codes "headers")
                (obj (field (codes "authorization") a (field (codes "x-api-key") b end))) end));
      }
      ∷ [];
}

abbrev all : List Component
all = otlphttp ∷ []

-- Another text in place of each secret.
abbrev other : Text → Value → Value
other p null = null
other p _ = str (codes "other")

other-KeepsNull : KeepsNull other
other-KeepsNull = record { null_stays = λ p. refl; value_stays = stays }
  where
    stays : (p : Text) (x : Value) → x ≢ null → other p x ≢ null
    stays p null h = λ _. h refl
    stays p (bool b) h = λ e. cc
    stays p (num n) h = λ e. cc
    stays p (str s) h = λ e. cc
    stays p (arr xs) h = λ e. cc
    stays p (obj fs) h = λ e. cc

redact_hides_example :
    redact_graph_secrets all (at_graph other all (with_headers (str (codes "secret")) null))
    ≡ redact_graph_secrets all (with_headers (str (codes "secret")) null)
redact_hides_example =
    redact_hides all (with_headers (str (codes "secret")) null) other (refl, tt) other-KeepsNull

abbrev marker : Value
marker = obj (field (codes "$enc") (str (codes "AQID")) end)

encrypt-redact_example :
    encrypt_graph_secrets none rand all
      (redact_graph_secrets all (with_headers marker null))
      (some (with_headers marker null))
    ≡ ok (stored (with_headers marker null))
unfolding secrets enc_value std_decode
encrypt-redact_example =
    encrypt-redact none rand all (with_headers marker null) (refl, tt)
      (inr (1 ∷ 2 ∷ 3 ∷ [], refl), (inl refl, tt)) ((apart _ _ refl, tt), (tt, tt))

abbrev edited : Graph
edited = with_headers (str redacted_sentinel) (str (codes "new"))

abbrev before : Graph
before = with_headers (str (codes "legacy")) null

decrypt-encrypt_example :
    (g' : Graph) × (encrypt_graph_secrets (some old_cipher) rand all edited (some before)
      ≡ ok (stored g'))
    × (decrypt_graph_secrets (some old_cipher) all g'
        ≡ ok (at_graph (meant old_cipher (table_of all (some before))) all edited))
unfolding secrets enc_value
decrypt-encrypt_example =
    decrypt-encrypt old_cipher rand old_cipher-Works all edited (some before) (refl, tt)
      ((refl, λ _. (str (codes "legacy"), refl, inr (codes "legacy", refl))), ((refl, λ e. cc), tt))

reading :
    at_graph (meant old_cipher (table_of all (some before))) all edited
    ≡ with_headers (str (codes "legacy")) (str (codes "new"))
unfolding secrets enc_value at_secrets
reading = refl

lost :
    encrypt_graph_secrets (some old_cipher) rand all edited none
    ≡ ok
        (refused (redacted_without_secret (codes "exporters[0].config.headers.authorization") ∷ []))
unfolding encrypt_graph_secrets index_graph transform_graph encrypt_secret encrypt
lost = refl
