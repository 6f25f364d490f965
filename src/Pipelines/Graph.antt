-- ===== src/Pipelines/Graph.antt =====
-- graph.go of internal/pipelines, with the values that encoding/json gives (numbers as their text)
-- and the catalog's components as far as the pipelines ask for them (catalog/catalog.go).
--
-- A map is the list of its fields, whose keys are distinct; Go ranges over it in any order, which is
-- that of the list here. ParseGraph and MarshalGraph are the JSON package on this type.
use otel_fleet.Prelude.{
  Text, codes, text_eq, ◌==◌, Bool, true, false, ◌&&◌, Option, none, some, List, [], ◌∷◌, elem,
  if◌then◌else◌,
}

mutual
  pub data Value : Type 0 where
    null : Value
    bool : Bool → Value
    num : Text → Value
    str : Text → Value
    arr : Items → Value
    obj : Fields → Value

  pub data Items : Type 0 where
    nil : Items
    cons : Value → Items → Items

  pub data Fields : Type 0 where
    end : Fields
    field : Text → Value → Fields → Fields

-- m[k]
abbrev pub field_of : Fields → Text → Option Value
field_of end k = none
field_of (field j v fs) k = if j == k then some v else field_of fs k

-- v.(map[string]any), v.(string)
abbrev pub as_map : Option Value → Option Fields
as_map (some (obj fs)) = some fs
as_map _ = none

abbrev pub as_string : Option Value → Option Text
as_string (some (str s)) = some s
as_string _ = none

pub record Node : Type 0 where
  pub type : Text
  pub name : Option Text
  pub config : Option Fields

pub record Graph : Type 0 where
  pub signals : List Text
  pub processors : List Node
  pub exporters : List Node

-- Signals
abbrev pub signals : List Text
signals = codes "logs" ∷ codes "traces" ∷ codes "metrics" ∷ []

-- validSignal
abbrev pub valid_signal : Text → Bool
valid_signal s = elem s signals

-- hasSignal of render.go
abbrev pub has_signal : Graph → Text → Bool
has_signal g sig = elem sig g.signals

pub data Kind : Type 0 where
  processor exporter : Kind

abbrev pub same_kind : Kind → Kind → Bool
same_kind processor processor = true
same_kind exporter exporter = true
same_kind _ _ = false

-- Component of the catalog: its schema is parsed.
pub record Component : Type 0 where
  pub type : Text
  pub kind : Kind
  pub schema : Fields

-- Lookup, in the list of the catalog
abbrev pub lookup : List Component → Kind → Text → Option Component
lookup [] kind typ = none
lookup (c ∷ all) kind typ =
    if same_kind c.kind kind && (c.type == typ) then some c else lookup all kind typ
