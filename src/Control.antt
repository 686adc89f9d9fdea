-- ===== src/Control.antt =====
-- The control package: durable job state and its execution.
pub mod Job
pub mod Journal
pub mod Store
pub mod Workers
pub mod Engine
pub mod Lease
pub mod Connections
pub mod Views
pub mod Protocol
pub mod Routes
