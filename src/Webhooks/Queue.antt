-- ===== src/Webhooks/Queue.antt =====
-- Publish and the choice of channels of dispatcher.go. The channel is the list of what waits, the
-- oldest first; Publish takes no lock, so that others may come between its selects.
pub mod Overflow
use otel_fleet.Prelude.{
  ℕ, zero, suc, ◌+◌, Text, text_eq, ◌==◌, Bool, true, false, ◌&&◌, Option, none, some, List, [],
  ◌∷◌, ◌++◌, length, drop, elem, filter, ltb, if◌then◌else◌,
}

abbrev pub queue_size : ℕ
queue_size = 256

-- What other goroutines do to the queue between two selects of a call: the consumer, and other calls
-- of Publish, take the oldest event; other calls send one, where there is room.
pub data Move (E : Type 0) : Type 0 where
  take : Move E
  put : E → Move E

module _ {E : Type 0} where
  abbrev pub has_room : List E → Bool
  has_room q = ltb (length q) queue_size

  -- case d.queue <- evt
  abbrev pub send : E → List E → List E
  send evt q = if has_room q then q ++ evt ∷ [] else q

  -- case dropped := <-d.queue
  abbrev pub drop_oldest : List E → List E
  drop_oldest q = drop 1 q

  unfoldable pub moved : List (Move E) → List E → List E
  moved [] q = q
  moved (take ∷ ms) q = moved ms (drop_oldest q)
  moved (put e ∷ ms) q = moved ms (send e q)

  abbrev pub later : (ℕ → List (Move E)) → ℕ → List (Move E)
  later others i = others (suc (suc i))

  -- Publish: a round of its loop sends the event, or else drops the oldest one, and the others move
  -- before each of the two selects. With fuel; none: the event is not in yet.
  unfoldable pub publish_with : ℕ → (ℕ → List (Move E)) → E → List E → Option (List E)
  publish_with zero others evt q = none
  publish_with (suc fuel) others evt q =
      let here = moved (others 0) q in
      let next = publish_with fuel (later others) evt (drop_oldest (moved (others 1) here)) in
      if has_room here then some (send evt here) else next

-- What dispatch reads of a webhook.
pub record Webhook : Type 0 where
  pub id : ℕ
  pub enabled : Bool
  pub events : List Text

-- The webhooks that an event is delivered to.
unfoldable pub matched : Text → List Webhook → List Webhook
matched type [] = []
matched type (wh ∷ hooks) =
    let rest = matched type hooks in if wh.enabled && elem type wh.events then wh ∷ rest else rest

-- SendToChannels: the channels of a rule that are enabled, whatever they are subscribed to.
unfoldable pub enabled_channels : List Webhook → List Webhook
enabled_channels [] = []
enabled_channels (wh ∷ hooks) =
    let rest = enabled_channels hooks in if wh.enabled then wh ∷ rest else rest
