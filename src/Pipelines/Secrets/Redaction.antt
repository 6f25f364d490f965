-- ===== src/Pipelines/Secrets/Redaction.antt =====
-- Secrets on their way out and in: RedactGraphSecrets, EncryptGraphSecrets and DecryptGraphSecrets of
-- internal/pipelines/secrets.go one after the other.
use mathlib.Core.Path.{fun_ext}
use otel_fleet.Prelude.{◌≡◌, ◌≢◌, refl, ◌∙◌, sym, ap, Text, text_eq, List, All}
use otel_fleet.Pipelines.Graph.{Value, null, bool, num, str, arr, obj, Graph, Component}
use otel_fleet.Pipelines.Secrets.{
  ok, transform_graph, redacted_sentinel, redact_secret, redact_graph_secrets,
}
use otel_fleet.Pipelines.Secrets.Marked.{Each-always}
use otel_fleet.Pipelines.Secrets.Graphs.{PlainComponent, at_graph, graph_at, graph_twice}

abbrev pub hide : Text → Value → Value
hide p null = null
hide p _ = str redacted_sentinel

pub redact_secret_lem :
    (p : Text) (x : Value) (st : Unit {0}) → Unit {0} → redact_secret p x st ≡ ok (hide p x, st)
unfolding redact_secret
redact_secret_lem p null st h = refl
redact_secret_lem p (bool b) st h = refl
redact_secret_lem p (num n) st h = refl
redact_secret_lem p (str s) st h = refl
redact_secret_lem p (arr xs) st h = refl
redact_secret_lem p (obj fs) st h = refl

pub redact_walk :
    (all : List Component) (g : Graph) (st : Unit {0})
    → transform_graph all redact_secret g st ≡ ok (at_graph hide all g, st)
redact_walk all g st =
    graph_at redact_secret hide (λ _ _. Unit) redact_secret_lem all g st
      (Each-always _ (λ _ _. tt) _)

pub redact_lem :
    (all : List Component) (g : Graph) → redact_graph_secrets all g ≡ at_graph hide all g
unfolding redact_graph_secrets
redact_lem all g = rw (redact_walk all g tt)

-- A change of secrets that makes none and drops none.
pub record KeepsNull (f : Text → Value → Value) : Type 0 where
  pub null_stays : (p : Text) → f p null ≡ null
  pub value_stays : (p : Text) (x : Value) → x ≢ null → f p x ≢ null

pub hide_value : (p : Text) (x : Value) → x ≢ null → hide p x ≡ str redacted_sentinel
hide_value p null h = absurd (h refl)
hide_value p (bool b) h = refl
hide_value p (num n) h = refl
hide_value p (str s) h = refl
hide_value p (arr xs) h = refl
hide_value p (obj fs) h = refl

hide_after :
    (f : Text → Value → Value) → KeepsNull f → (p : Text) (x : Value) → hide p (f p x) ≡ hide p x
hide_after f k p null = ap (hide p) (k.null_stays p)
hide_after f k p (bool b) = hide_value p (f p (bool b)) (k.value_stays p (bool b) (λ e. cc))
hide_after f k p (num n) = hide_value p (f p (num n)) (k.value_stays p (num n) (λ e. cc))
hide_after f k p (str s) = hide_value p (f p (str s)) (k.value_stays p (str s) (λ e. cc))
hide_after f k p (arr xs) = hide_value p (f p (arr xs)) (k.value_stays p (arr xs) (λ e. cc))
hide_after f k p (obj fs) = hide_value p (f p (obj fs)) (k.value_stays p (obj fs) (λ e. cc))

-- A redacted graph tells nothing of the secrets: two graphs that differ only in the values of the
-- fields that their schemas mark, none of them null in one and not in the other, are redacted to the
-- same graph. The schemas of the catalog are no passwords themselves.
pub redact_hides :
    (all : List Component) (g : Graph) (f : Text → Value → Value)
    → All PlainComponent all
    → KeepsNull f
    → redact_graph_secrets all (at_graph f all g) ≡ redact_graph_secrets all g
redact_hides all g f q k =
    redact_lem all (at_graph f all g)
    ∙ graph_twice hide f all g q
    ∙ ap (λ (h : Text → Value → Value). at_graph h all g)
        (fun_ext (λ p. fun_ext (λ x. hide_after f k p x)))
    ∙ sym (redact_lem all g)
