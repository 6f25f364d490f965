-- ===== src/Pipelines/Render/Routes.antt =====
-- The routing of the tenants' data in a rendered forwarding configuration
-- (internal/pipelines/render.go).
use otel_fleet.Prelude.{
  ◌≡◌, refl, ◌∙◌, sym, ap, inl, inr, Text, text_eq, ◌==◌, text_beq→eq, true, false, Bool-cases,
  Option, none, some, List, [], ◌∷◌, ◌++◌, map, elem, filter, arith,
}
use mathlib.Core.List.{append_assoc, append-nil}
use otel_fleet.Pipelines.Render.{
  RenderPipeline, ByClient, grouped_with, group, no_clients, table_of, ids_so_far, order_with,
  entry_of,
}
use otel_fleet.Pipelines.Render.Blocks.{id_of}

-- The pipelines of a client.
abbrev pub of_client : Text → List RenderPipeline → List RenderPipeline
of_client client routed = filter (λ p. p.client_id == client) routed

elem-append :
    (l : List Text) (c client : Text)
    → elem client (l ++ c ∷ []) ≡ false
    → (elem client l ≡ false) × ((c == client) ≡ false)
elem-append [] c client h = (refl, ground arith)
elem-append (x ∷ l) c client h =
    let (a, b) = elem-append l c client (ground arith) in (ground arith, b)

module _ (sig : Text) where
  grouped_with_hit :
      (st : ByClient) (p : RenderPipeline) (client : Text)
      → (p.client_id == client) ≡ true
      → ids_so_far ((grouped_with sig st p).by_client client)
        ≡ ids_so_far (st.by_client client) ++ id_of sig p ∷ []
  grouped_with_hit st p client q =
      rw q (
        ap (λ c. ids_so_far (st.by_client c) ++ id_of sig p ∷ [])
          (text_beq→eq p.client_id client q))

  group_ids :
      (st : ByClient) (routed : List RenderPipeline) (client : Text)
      → ids_so_far ((group sig st routed).by_client client)
        ≡ ids_so_far (st.by_client client) ++ map (id_of sig) (of_client client routed)
  unfolding group
  group_ids st [] client = sym (append-nil _)
  group_ids st (p ∷ routed) client = elim (Bool-cases (p.client_id == client)) [
    | inl q ↦
        group_ids (grouped_with sig st p) routed client
        ∙ ap (λ l. l ++ map (id_of sig) (of_client client routed)) (grouped_with_hit st p client q)
        ∙ append_assoc (ids_so_far (st.by_client client)) (id_of sig p ∷ []) _
        ∙ (rw q)
    | inr q ↦ group_ids (grouped_with sig st p) routed client ∙ (rw q)
  ]

  -- Every client that has ids stands in the order.
  abbrev Known : ByClient → Type 0
  Known st = (client : Text) → elem client st.client_order ≡ false → st.by_client client ≡ none

  order_with-elem :
      (o : Option (List Text)) (order : List Text) (c client : Text)
      → elem client (order_with o order c) ≡ false
      → (elem client order ≡ false) × ((o ≡ none) → (c == client) ≡ false)
  order_with-elem none order c client h = let (a, b) = elem-append order c client h in (a, λ _. b)
  order_with-elem (some l) order c client h = (h, λ e. cc)

  grouped_with-Known :
      (st : ByClient) (p : RenderPipeline) → Known st → Known (grouped_with sig st p)
  grouped_with-Known st p k client h =
      let (a, b) =
        order_with-elem (st.by_client p.client_id) st.client_order p.client_id client h in
      elim (Bool-cases (p.client_id == client)) [
        | inl q ↦
            let z : (p.client_id == client) ≡ false =
              b (ap st.by_client (text_beq→eq p.client_id client q) ∙ k client a) in
            cc
        | inr q ↦ rw q (k client a)
      ]

  group-Known :
      (st : ByClient) (routed : List RenderPipeline) → Known st → Known (group sig st routed)
  unfolding group
  group-Known st [] k = k
  group-Known st (p ∷ routed) k =
      group-Known (grouped_with sig st p) routed (grouped_with-Known st p k)

entry_of-order :
    (F : Text → List Text) (order : List Text) (client : Text)
    → (elem client order ≡ false → F client ≡ [])
    → ids_so_far (entry_of (map (λ (c : Text). (c, F c)) order) client) ≡ F client
entry_of-order F [] client h = sym (h refl)
entry_of-order F (c ∷ order) client h = elim (Bool-cases (c == client)) [
  | inl q ↦ rw q (ap F (text_beq→eq c client q))
  | inr q ↦ rw q (entry_of-order F order client (λ z. h (rw q z)))
]

-- The table sends a client's data to the client's pipelines, in their order.
pub table_lem :
    (sig : Text) (routed : List RenderPipeline) (client : Text)
    → ids_so_far (entry_of (table_of sig routed) client) ≡ map (id_of sig) (of_client client routed)
table_lem sig routed client =
    let st = group sig no_clients routed in
    entry_of-order (λ c. ids_so_far (st.by_client c)) st.client_order client
      (λ z. ap ids_so_far (group-Known sig no_clients routed (λ _ _. refl) client z))
    ∙ group_ids sig no_clients routed client
