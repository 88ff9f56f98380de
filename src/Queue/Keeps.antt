-- ===== src/Queue/Keeps.antt =====
-- Every script keeps the queue's invariant, one module for each group of scripts.
pub mod Cases
pub mod Owner
pub mod Worker
pub mod Producer
pub mod Operator
pub mod Outside
