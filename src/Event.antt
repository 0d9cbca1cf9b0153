-- ===== src/Event.antt =====
-- pkg/event: one-to-many event feeds and scopes of subscriptions.
pub mod Cases
pub mod Feed
pub mod Scope
