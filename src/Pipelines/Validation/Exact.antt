-- ===== src/Pipelines/Validation/Exact.antt =====
-- Which graphs have no issues, and what that means for a rendered configuration
-- (internal/pipelines/validate.go).
use otel_fleet.Prelude.{
  ◌≡◌, ◌↔◌, refl, inl, inr, ℕ, suc, Text, codes, text_eq, ◌==◌, Bool, true, false, Bool-cases,
  Option, Option-cases, none, some, List, [], ◌∷◌, ◌++◌, map, elem, All, if◌then◌else◌,
}
use otel_fleet.Pipelines.Graph.{
  Fields, Node, Graph, valid_signal, Kind, processor, exporter, Component, lookup,
}
use otel_fleet.Pipelines.Secrets.{item_path}
use otel_fleet.Pipelines.Validation.{
  Issue, issue_of_signal, signal_issues, is_bad_name, seen_at, sample_id, name_issues,
  instance_issues, is_nil, known_issues, validate_nodes, validate_structural,
}

append-nil-split : {A : Type 0} (l m : List A) → l ++ m ≡ [] → (l ≡ []) × (m ≡ [])
append-nil-split [] m h = (refl, h)
append-nil-split (x ∷ l) m h = cc

-- No text occurs again, and none is one of those before.
abbrev pub NoRepeat : List Text → List Text → Type 0
NoRepeat before [] = Unit
NoRepeat before (x ∷ xs) = (elem x before ≡ false) × NoRepeat (x ∷ before) xs

abbrev pub IsSignal : Text → Type 0
IsSignal sig = valid_signal sig ≡ true

issue_of_signal-nil :
    (i : ℕ) (seen : List Text) (sig : Text)
    → issue_of_signal i seen sig ≡ []
    → IsSignal sig × (elem sig seen ≡ false)
issue_of_signal-nil i seen sig h = elim (Bool-cases (valid_signal sig)) [
  | inl v ↦ elim (Bool-cases (elem sig seen)) [
    | inl e ↦ let z = rw (v, e) at h in cc
    | inr e ↦ (v, e)
  ]
  | inr v ↦ let z = rw v at h in cc
]

signals-there :
    (i : ℕ) (seen sigs : List Text)
    → signal_issues i seen sigs ≡ []
    → All IsSignal sigs × NoRepeat seen sigs
unfolding signal_issues
signals-there i seen [] h = (tt, tt)
signals-there i seen (sig ∷ sigs) h =
    let (a, b) = append-nil-split (issue_of_signal i seen sig) _ h in
    let (v, e) = issue_of_signal-nil i seen sig a in
    let (k, l) = signals-there (suc i) (sig ∷ seen) sigs b in ((v, k), (e, l))

signals-back :
    (i : ℕ) (seen sigs : List Text)
    → All IsSignal sigs
    → NoRepeat seen sigs
    → signal_issues i seen sigs ≡ []
unfolding signal_issues
signals-back i seen [] h k = refl
signals-back i seen (sig ∷ sigs) h k =
    rw (h.0, k.0) (signals-back (suc i) (sig ∷ seen) sigs h.1 k.1)

abbrev pub sample_ids : ℕ → List Node → List Text
sample_ids i [] = []
sample_ids i (n ∷ nodes) = sample_id i n ∷ sample_ids (suc i) nodes

abbrev seen_ids : List (Text × ℕ) → List Text
seen_ids seen = map (λ (s : Text × ℕ). s.0) seen

seen_at-none :
    (id : Text) (seen : List (Text × ℕ)) → seen_at id seen ≡ none → elem id (seen_ids seen) ≡ false
seen_at-none id [] h = refl
seen_at-none id ((j, i) ∷ seen) h = elim (Bool-cases (j == id)) [
  | inl q ↦ let z : some i ≡ none = rw q at h in cc
  | inr q ↦ rw q (seen_at-none id seen (rw q at h))
]

none-seen_at :
    (id : Text) (seen : List (Text × ℕ)) → elem id (seen_ids seen) ≡ false → seen_at id seen ≡ none
none-seen_at id [] h = refl
none-seen_at id ((j, i) ∷ seen) h = elim (Bool-cases (j == id)) [
  | inl q ↦ let z : true ≡ false = rw q at h in cc
  | inr q ↦ rw q (none-seen_at id seen (rw q at h))
]

instance_issues-nil :
    (base : Text) (kind : Kind) (o : Option ℕ) → instance_issues base kind o ≡ [] → o ≡ none
instance_issues-nil base kind none h = refl
instance_issues-nil base kind (some i) h = cc

map-nil : {A B : Type 0} (f : A → B) (l : List A) → map f l ≡ [] → l ≡ []
map-nil f [] h = refl
map-nil f (x ∷ l) h = cc

name_issues-nil :
    (base : Text) (name : Option Text) → name_issues base name ≡ [] → is_bad_name name ≡ false
name_issues-nil base name h = elim (Bool-cases (is_bad_name name)) [
  | inl q ↦ let z = rw q at h in cc
  | inr q ↦ q
]

none_if : (b : Bool) (i : Issue) → (if b then i ∷ [] else []) ≡ [] → b ≡ false
none_if true i h = cc
none_if false i h = refl

module _ (all : List Component)
    (validate_config : Component → Option Fields → List (Text × Text)) where
  -- A node whose component is known, whose name (if any) is usable, and whose configuration fits.
  pub record NodeFits (kind : Kind) (n : Node) : Type 0 where
    pub component : Component
    pub known : lookup all kind n.type ≡ some component
    pub named : is_bad_name n.name ≡ false
    pub fits : validate_config component n.config ≡ []

  -- The nodes of a section fit, and no two have the same component id.
  abbrev pub SectionFits : Kind → List Node → Type 0
  SectionFits kind nodes = All (NodeFits kind) nodes × NoRepeat [] (sample_ids 0 nodes)

  nodes-there :
      (field : Text) (kind : Kind) (i : ℕ) (seen : List (Text × ℕ)) (nodes : List Node)
      → validate_nodes all validate_config field kind i seen nodes ≡ []
      → All (NodeFits kind) nodes × NoRepeat (seen_ids seen) (sample_ids i nodes)
  unfolding validate_nodes
  nodes-there field kind i seen [] h = (tt, tt)
  nodes-there field kind i seen (n ∷ nodes) h =
      let (a, b) = append-nil-split (name_issues (item_path field i) n.name) _ h in
      let (c, d) =
        append-nil-split
          (known_issues all validate_config (item_path field i) kind i seen n
            (lookup all kind n.type))
          _ b in
      elim (Option-cases (lookup all kind n.type)) [
        | inl e ↦ let z = rw e at c in cc
        | inr (comp, e) ↦
            let (f, g) =
              append-nil-split
                (instance_issues (item_path field i) kind (seen_at (sample_id i n) seen)) _
                (rw e at c) in
            let new = instance_issues-nil (item_path field i) kind _ f in
            let (k, l) =
              nodes-there field kind (suc i) ((sample_id i n, i) ∷ seen) nodes (rw e at d) in
            (
              (
                record {
                  component = comp;
                  known = e;
                  named = name_issues-nil (item_path field i) n.name a;
                  fits = map-nil _ (validate_config comp n.config) g;
                },
                k,
              ),
              (seen_at-none (sample_id i n) seen new, l),
            )
      ]

  nodes-back :
      (field : Text) (kind : Kind) (i : ℕ) (seen : List (Text × ℕ)) (nodes : List Node)
      → All (NodeFits kind) nodes
      → NoRepeat (seen_ids seen) (sample_ids i nodes)
      → validate_nodes all validate_config field kind i seen nodes ≡ []
  unfolding validate_nodes
  nodes-back field kind i seen [] h k = refl
  nodes-back field kind i seen (n ∷ nodes) h k =
      let f = h.0 in
      let known : lookup all kind n.type ≡ some f.component = f.known in
      let named : is_bad_name n.name ≡ false = f.named in
      rw (named, known, none-seen_at (sample_id i n) seen k.0, f.fits)
        (nodes-back field kind (suc i) ((sample_id i n, i) ∷ seen) nodes h.1 k.1)

  -- A graph that can be rendered: it has signals, all of them known and no two the same, and exporters,
  -- and the nodes of both sections fit.
  pub record IsWellFormed (g : Graph) : Type 0 where
    pub some_signal : is_nil g.signals ≡ false
    pub known_signals : All IsSignal g.signals
    pub signals_apart : NoRepeat [] g.signals
    pub some_exporter : is_nil g.exporters ≡ false
    pub processors_fit : SectionFits processor g.processors
    pub exporters_fit : SectionFits exporter g.exporters

  validate-IsWellFormed :
      (g : Graph) → validate_structural all validate_config g ≡ [] → IsWellFormed g
  unfolding validate_structural
  validate-IsWellFormed g h =
      let (a, b) = append-nil-split (if is_nil g.signals then _ else _) _ h in
      let (c, d) = append-nil-split (signal_issues 0 [] g.signals) _ b in
      let (e, f) = append-nil-split (if is_nil g.exporters then _ else _) _ d in
      let (k, l) =
        append-nil-split
          (validate_nodes all validate_config (codes "processors") processor 0 [] g.processors) _
          f in
      let (m, n) = signals-there 0 [] g.signals c in
      record {
        some_signal = none_if (is_nil g.signals) _ a;
        known_signals = m;
        signals_apart = n;
        some_exporter = none_if (is_nil g.exporters) _ e;
        processors_fit = nodes-there (codes "processors") processor 0 [] g.processors k;
        exporters_fit = nodes-there (codes "exporters") exporter 0 [] g.exporters l;
      }

  IsWellFormed-validate :
      (g : Graph) → IsWellFormed g → validate_structural all validate_config g ≡ []
  unfolding validate_structural
  IsWellFormed-validate g w =
      let s : is_nil g.signals ≡ false = w.some_signal in
      let e : is_nil g.exporters ≡ false = w.some_exporter in
      rw
        (
          s,
          signals-back 0 [] g.signals w.known_signals w.signals_apart,
          e,
          nodes-back (codes "processors") processor 0 [] g.processors w.processors_fit.0
              w.processors_fit.1,
        )
        (nodes-back (codes "exporters") exporter 0 [] g.exporters w.exporters_fit.0
          w.exporters_fit.1)

  -- The structural validation reports nothing exactly when the graph has signals, each known and no two
  -- the same, and exporters, and in both sections every node is of a known type with a usable name (if
  -- it has one) and a configuration that fits the schema, and no two nodes get the same component id.
  pub validate_structural-exact :
      (g : Graph) → (validate_structural all validate_config g ≡ []) ↔ IsWellFormed g
  validate_structural-exact g = (validate-IsWellFormed g, IsWellFormed-validate g)
