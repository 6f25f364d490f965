-- ===== src/Pipelines/Render/Delivered.antt =====
-- Where the data of a tenant goes in a rendered forwarding configuration
-- (internal/pipelines/render.go).
use otel_fleet.Prelude.{
  ◌≡◌, ◌≢◌, refl, ◌∙◌, ap, subst, inl, inr, ℕ, Text, codes, text_eq, ◌==◌, beq_self, beq_ne, apart,
  text_beq→eq, true, false, Bool-cases, none, some, List, [], ◌∷◌, ◌++◌, map, elem, All, All-append,
  arith,
}
use mathlib.Core.List.{append-nil}
use otel_fleet.Pipelines.Graph.{signals, has_signal}
use otel_fleet.Pipelines.Naming.{pipeline_key, collector_pipeline_id}
use otel_fleet.Pipelines.Naming.Apart.{Lacks, cut_once}
use otel_fleet.Pipelines.Render.{
  RenderPipeline, CollectorPipeline, Config, Table, table_of, ids_so_far, shared_processors,
  add_connector, connectors_of, signals_with, carried, is_nil, is_unrouted, sink_of,
  routing_connector_id, entry_id, entry_pipelines, flat_map, ids, exporters_of, key_of,
  duplicate_key, entry_of, forwarding_config, collector_pipeline,
}
use otel_fleet.Pipelines.Render.Blocks.{
  In, entry_of-left, entry_of-right, Slashless, id_of, blocks_lem,
}
use otel_fleet.Pipelines.Render.Routes.{of_client, table_lem}

-- The exporters of a collector pipeline.
abbrev pub reached : Config → Text → List Text
reached cfg id = elim (entry_of cfg.pipelines id) [ none ↦ [] | some p ↦ p.exporters ]

-- What a sink of the entry pipeline passes the data of a client to: a routing connector, the pipelines
-- of the client's entry in its table, and any other exporter, itself.
abbrev pub passed_on : Config → Text → Text → List Text
passed_on cfg client sink = elim (entry_of cfg.connectors sink) [
  | none ↦ sink ∷ []
  | some table ↦ flat_map (reached cfg) (ids_so_far (entry_of table client))
]

-- The exporters that get the data of a client with a signal.
abbrev pub delivered : Config → Text → Text → List Text
delivered cfg sig client = elim (entry_of cfg.pipelines (entry_id sig)) [
  | none ↦ []
  | some entry ↦ flat_map (passed_on cfg client) entry.exporters
]

Lacks-middle : (b : ℕ) (t c r : Text) → Lacks b t → t ≢ c ++ b ∷ r
Lacks-middle b [] [] r h e = cc
Lacks-middle b [] (x ∷ c) r h e = cc
Lacks-middle b (y ∷ t) [] r h e = h.0 (cc e)
Lacks-middle b (y ∷ t) (x ∷ c) r h e = Lacks-middle b t c r h.1 (cc e)

entry-ne-id :
    (s sig : Text) (p : RenderPipeline) → Slashless s → Slashless sig → entry_id s ≢ id_of sig p
unfolding collector_pipeline_id pipeline_key
entry-ne-id s sig p h k e =
    Lacks-middle b'_' (codes "in") p.customer_slug (b'_' ∷ p.pipeline_slug)
      (omega arith, (omega arith, tt)) (cut_once b'/' s sig (codes "in") (key_of p) h k e).1

module _ (sink : Text → Text) (sig : Text) (plain : Slashless sig) where
  entries_other :
      (sigs : List Text) (p : RenderPipeline)
      → All Slashless sigs
      → entry_of (entry_pipelines sink sigs) (id_of sig p) ≡ none
  entries_other [] p h = refl
  entries_other (s ∷ sigs) p h =
      rw (beq_ne (entry_id s) (id_of sig p) (entry-ne-id s sig p h.0 plain))
        (entries_other sigs p h.1)

  abbrev Entry : CollectorPipeline
  Entry = record {
    receivers = codes "otlp" ∷ [];
    processors = some shared_processors;
    exporters = sink sig ∷ [];
  }

  entries_self :
      (sigs : List Text)
      → All Slashless sigs
      → elem sig sigs ≡ true
      → entry_of (entry_pipelines sink sigs) (entry_id sig) ≡ some Entry
  entries_self [] h e = cc
  entries_self (s ∷ sigs) h e = elim (Bool-cases (s == sig)) [
    | inl q ↦ rw (text_beq→eq s sig q) (rw (beq_self (entry_id sig)))
    | inr q ↦
        rw
          (beq_ne (entry_id s) (entry_id sig)
            (λ z. apart s sig q (cut_once b'/' s sig (codes "in") (codes "in") h.0 plain z).0))
          (entries_self sigs h.1 (rw q at e))
  ]

connector_inj : (s sig : Text) → routing_connector_id s ≡ routing_connector_id sig → s ≡ sig
connector_inj s sig e = cc e

connector_self :
    (sig : Text) (routed : List RenderPipeline) (rest : List (Text × Table))
    → is_nil routed ≡ false
    → entry_of (add_connector sig routed rest) (routing_connector_id sig)
      ≡ some (table_of sig routed)
connector_self sig [] rest h = cc
connector_self sig (p ∷ routed) rest h = rw (beq_self (routing_connector_id sig))

connector_other :
    (s sig : Text) (routed : List RenderPipeline) (rest : List (Text × Table))
    → (s == sig) ≡ false
    → entry_of (add_connector s routed rest) (routing_connector_id sig)
      ≡ entry_of rest (routing_connector_id sig)
connector_other s sig [] rest h = refl
connector_other s sig (p ∷ routed) rest h = rw (
    beq_ne (routing_connector_id s) (routing_connector_id sig)
      (λ z. apart s sig h (connector_inj s sig z)))

connectors_lem :
    (sigs : List Text) (sig : Text) (ps : List RenderPipeline)
    → elem sig sigs ≡ true
    → is_unrouted ps sig ≡ false
    → entry_of (connectors_of sigs ps) (routing_connector_id sig)
      ≡ some (table_of sig (signals_with sig ps))
connectors_lem [] sig ps e h = cc
connectors_lem (s ∷ sigs) sig ps e h = elim (Bool-cases (s == sig)) [
  | inl q ↦ rw (text_beq→eq s sig q) (connector_self sig (signals_with sig ps) _ h)
  | inr q ↦ connector_other s sig (signals_with s ps) _ q ∙ connectors_lem sigs sig ps (rw q at e) h
]

-- The pipelines that carry a signal are such pipelines.
module _ (P : RenderPipeline → Type 0) (sig : Text) where
  carried-All :
      (p : RenderPipeline) (sigs : List Text)
      → (elem sig sigs ≡ true → P p)
      → All P (carried sig p sigs)
  carried-All p [] h = tt
  carried-All p (s ∷ sigs) h = elim (Bool-cases (s == sig)) [
    | inl q ↦ rw q (h (rw q), carried-All p sigs (λ _. h (rw q)))
    | inr q ↦ rw q (carried-All p sigs (λ z. h (rw (q, z))))
  ]

  signals_with-All :
      (ps : List RenderPipeline)
      → ((p : RenderPipeline) → In p ps → has_signal p.graph sig ≡ true → P p)
      → All P (signals_with sig ps)
  unfolding signals_with
  signals_with-All [] h = tt
  signals_with-All (p ∷ ps) h =
      All-append P (carried sig p p.graph.signals) (signals_with sig ps)
        (carried-All p p.graph.signals (h p (inl refl))) (signals_with-All ps (λ q i. h q (inr i)))

  of_client-All :
      (client : Text) (ps : List RenderPipeline) → All P ps → All P (of_client client ps)
  of_client-All client [] h = tt
  of_client-All client (p ∷ ps) h = elim (Bool-cases (p.client_id == client)) [
    | inl q ↦ rw q (h.0, of_client-All client ps h.1)
    | inr q ↦ rw q (of_client-All client ps h.1)
  ]

flat_map-map :
    (f : Text → List Text) (g : RenderPipeline → Text) (h : RenderPipeline → List Text)
    (ps : List RenderPipeline)
    → All (λ p. f (g p) ≡ h p) ps
    → flat_map f (map g ps) ≡ flat_map h ps
flat_map-map f g h [] e = refl
flat_map-map f g h (p ∷ ps) e = rw (e.0, flat_map-map f g h ps e.1)

signals_plain : All Slashless signals
signals_plain = omega arith

elem-Slashless :
    (sigs : List Text) (sig : Text) → All Slashless sigs → elem sig sigs ≡ true → Slashless sig
elem-Slashless [] sig h e = cc
elem-Slashless (s ∷ sigs) sig h e = elim (Bool-cases (s == sig)) [
  | inl q ↦ subst Slashless (text_beq→eq s sig q) h.0
  | inr q ↦ elem-Slashless sigs sig h.1 (rw q at e)
]

abbrev pub exporter_ids : RenderPipeline → List Text
exporter_ids p = ids (exporters_of p)

reached_of :
    (cfg : Config) (id : Text) (p : CollectorPipeline)
    → entry_of cfg.pipelines id ≡ some p
    → reached cfg id ≡ p.exporters
reached_of cfg id p e = rw (e, reached)

passed_on_of :
    (cfg : Config) (client sink : Text) (table : Table)
    → entry_of cfg.connectors sink ≡ some table
    → passed_on cfg client sink ≡ flat_map (reached cfg) (ids_so_far (entry_of table client))
passed_on_of cfg client sink table e = rw (e, passed_on)

delivered_of :
    (cfg : Config) (sig client : Text) (entry : CollectorPipeline)
    → entry_of cfg.pipelines (entry_id sig) ≡ some entry
    → delivered cfg sig client ≡ flat_map (passed_on cfg client) entry.exporters
delivered_of cfg sig client entry e = rw (e, delivered)

module _ (ps : List RenderPipeline) (sig : Text) (known : elem sig signals ≡ true)
    (distinct : duplicate_key ps ≡ none) where
  plain : Slashless sig
  plain = elem-Slashless signals sig signals_plain known

  reached_lem :
      (p : RenderPipeline)
      → In p ps
      → has_signal p.graph sig ≡ true
      → reached (forwarding_config ps) (id_of sig p) ≡ exporter_ids p
  unfolding forwarding_config
  reached_lem p i c = reached_of (forwarding_config ps) (id_of sig p) (collector_pipeline sig p) (
      entry_of-right (entry_pipelines (sink_of ps) signals) _ (id_of sig p)
        (entries_other (sink_of ps) sig plain signals p signals_plain)
      ∙ blocks_lem collector_pipeline sig p plain signals ps signals_plain known c distinct i)

  passed_on_lem :
      (client : Text)
      → is_unrouted ps sig ≡ false
      → passed_on (forwarding_config ps) client (routing_connector_id sig)
        ≡ flat_map exporter_ids (of_client client (signals_with sig ps))
  unfolding forwarding_config
  passed_on_lem client routed =
      passed_on_of (forwarding_config ps) client (routing_connector_id sig)
        (table_of sig (signals_with sig ps)) (connectors_lem signals sig ps known routed)
      ∙ ap (flat_map (reached (forwarding_config ps))) (table_lem sig (signals_with sig ps) client)
      ∙ flat_map-map (reached (forwarding_config ps)) (id_of sig) exporter_ids
          (of_client client (signals_with sig ps))
          (of_client-All _ sig client (signals_with sig ps) (signals_with-All _ sig ps reached_lem))

  pub delivered_lem :
      (client : Text)
      → is_unrouted ps sig ≡ false
      → delivered (forwarding_config ps) sig client
        ≡ flat_map exporter_ids (of_client client (signals_with sig ps))
  unfolding forwarding_config
  delivered_lem client routed =
      delivered_of (forwarding_config ps) sig client (Entry (sink_of ps) sig plain) (
        entry_of-left (entry_pipelines (sink_of ps) signals) _ (entry_id sig) _
          (entries_self (sink_of ps) sig plain signals signals_plain known))
      ∙ append-nil _
      ∙ (rw routed (passed_on_lem client routed))
