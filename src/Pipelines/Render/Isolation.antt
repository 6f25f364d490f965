-- ===== src/Pipelines/Render/Isolation.antt =====
-- Which pipelines get the data of a tenant (internal/pipelines/render.go).
use otel_fleet.Prelude.{Bool, ◌&&◌, ◌≡◌, Text, text_eq, ◌==◌, false, List, [], ◌∷◌, elem}
use otel_fleet.Pipelines.Graph.{has_signal}
use otel_fleet.Pipelines.Render.{RenderPipeline}

-- No signal is listed twice, which the validation of a graph refuses.
abbrev pub Once : List Text → Type 0
Once [] = Unit
Once (s ∷ sigs) = (elem s sigs ≡ false) × Once sigs

-- The pipeline carries the signal and is the client's.
abbrev pub serves : Text → Text → RenderPipeline → Bool
serves sig client p = has_signal p.graph sig && (p.client_id == client)
