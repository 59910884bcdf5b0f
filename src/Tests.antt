-- ===== src/Tests.antt =====
-- Concrete deployments, and the theorems applied at them.
mod Memory
mod Deployment
mod Rows
mod Store
mod Handlers
mod Apps
pub mod SignIns
pub mod Silent
pub mod Chosen
