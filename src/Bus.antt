-- ===== src/Bus.antt =====
-- internal/bus: the RabbitMQ transport.
pub mod Routing
pub mod Keys
pub mod Control
pub mod Envelope
pub mod Transport
pub mod Deliveries
pub mod Setup
