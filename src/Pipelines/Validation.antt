-- ===== src/Pipelines/Validation.antt =====
-- validate.go of internal/pipelines. The check of a configuration against the schema of its component
-- is the JSON schema library's: an argument gives the findings, none for a configuration that fits.
-- Issues carry a constructor for their text.
pub mod Exact
use otel_fleet.Prelude.{
  ℕ, suc, Text, codes, text_eq, ◌==◌, Bool, true, false, not, ◌&&◌, Option, none, some, List, [],
  ◌∷◌, ◌++◌, map, elem, if◌then◌else◌,
}
use otel_fleet.Pipelines.Graph.{
  Fields, Node, Graph, signals, valid_signal, Kind, processor, exporter, Component, lookup,
}
use otel_fleet.Pipelines.Naming.{component_id, valid_node_name}
use otel_fleet.Pipelines.Secrets.{item_path}

pub data Message : Type 0 where
  signal_required exporter_required bad_node_name : Message
  unknown_signal duplicate_signal : Text → Message
  unknown_type : Kind → Text → Message
  duplicate_instance : Kind → ℕ → Message
  schema_violation : Text → Message

pub record Issue : Type 0 where
  pub path : Text
  pub message : Message

abbrev pub issue_at : Text → Message → Issue
issue_at path message = record { path = path; message = message }

-- The issue of a signal, with those that were seen.
abbrev pub issue_of_signal : ℕ → List Text → Text → List Issue
issue_of_signal i seen sig =
    if not (valid_signal sig)
    then issue_at (item_path (codes "signals") i) (unknown_signal sig) ∷ []
    else if elem sig seen
    then issue_at (item_path (codes "signals") i) (duplicate_signal sig) ∷ []
    else []

unfoldable pub signal_issues : ℕ → List Text → List Text → List Issue
signal_issues i seen [] = []
signal_issues i seen (sig ∷ sigs) =
    issue_of_signal i seen sig ++ signal_issues (suc i) (sig ∷ seen) sigs

-- n.Name != nil && *n.Name != "" && !ValidNodeName(*n.Name)
abbrev pub is_bad_name : Option Text → Bool
is_bad_name none = false
is_bad_name (some name) = not (name == []) && not (valid_node_name name)

-- seenID, the last index of each id
abbrev pub seen_at : Text → List (Text × ℕ) → Option ℕ
seen_at id [] = none
seen_at id ((j, i) ∷ seen) = if j == id then some i else seen_at id seen

abbrev pub sample_id : ℕ → Node → Text
sample_id i n = component_id n i (codes "c") (codes "p")

abbrev pub name_issues : Text → Option Text → List Issue
name_issues base name =
    if is_bad_name name then issue_at (base ++ codes ".name") bad_node_name ∷ [] else []

abbrev pub instance_issues : Text → Kind → Option ℕ → List Issue
instance_issues base kind none = []
instance_issues base kind (some prev) = issue_at base (duplicate_instance kind prev) ∷ []

abbrev pub is_nil {ℓ} : {A : Type ℓ} → List A → Bool
is_nil [] = true
is_nil (x ∷ xs) = false

module _ (all : List Component)
    (validate_config : Component → Option Fields → List (Text × Text)) where
  -- schemaIssues
  abbrev pub schema_issues : Text → Component → Option Fields → List Issue
  schema_issues base comp config =
      map (λ (v : Text × Text). issue_at (base ++ (codes ".config" ++ v.0)) (schema_violation v.1))
        (validate_config comp config)

  -- The body of the loop of validateNodes after the name; a node of an unknown type is not seen.
  abbrev pub known_issues : Text → Kind → ℕ → List (Text × ℕ) → Node → Option Component → List Issue
  known_issues base kind i seen n none =
      issue_at (base ++ codes ".type") (unknown_type kind n.type) ∷ []
  known_issues base kind i seen n (some comp) =
      instance_issues base kind (seen_at (sample_id i n) seen) ++ schema_issues base comp n.config

  abbrev pub seen_with : ℕ → List (Text × ℕ) → Node → Option Component → List (Text × ℕ)
  seen_with i seen n none = seen
  seen_with i seen n (some comp) = (sample_id i n, i) ∷ seen

  -- validateNodes
  unfoldable pub validate_nodes : Text → Kind → ℕ → List (Text × ℕ) → List Node → List Issue
  validate_nodes field kind i seen [] = []
  validate_nodes field kind i seen (n ∷ nodes) =
      name_issues (item_path field i) n.name
      ++ (known_issues (item_path field i) kind i seen n (lookup all kind n.type)
          ++ validate_nodes field kind (suc i) (seen_with i seen n (lookup all kind n.type)) nodes)

  -- ValidateStructural
  unfoldable pub validate_structural : Graph → List Issue
  validate_structural g =
      (if is_nil g.signals then issue_at (codes "signals") signal_required ∷ [] else [])
      ++ (signal_issues 0 [] g.signals
          ++ ((if is_nil g.exporters
                then issue_at (codes "exporters") exporter_required ∷ []
                else [])
              ++ (validate_nodes (codes "processors") processor 0 [] g.processors
                  ++ validate_nodes (codes "exporters") exporter 0 [] g.exporters)))
