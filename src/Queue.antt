-- ===== src/Queue.antt =====
-- app/services/queue_service.py
pub mod Script
pub mod Consistent
pub mod Keeps
pub mod History
pub mod Race
pub mod Service
mod Examples
