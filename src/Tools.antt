-- ===== src/Tools.antt =====
-- internal/tools: the scope of one investigation, the catalogue, the broker, and what they confine.
pub mod Scope
pub mod Catalog
pub mod Broker
pub mod Workload
pub mod Resolve
pub mod Agreement
pub mod Confine
pub mod Record
pub mod Audit
pub mod Strict
pub mod History
pub mod Grounded
pub mod Unowned
pub mod Schemas
pub mod Mcp
pub mod Target
pub mod Served
