-- ===== src/Webhooks.antt =====
-- internal/webhooks: the queue of fleet events, the choice of channels and the delivery with
-- retries (dispatcher.go).
pub mod Queue
pub mod Delivery
pub mod Vendors
pub mod Render
