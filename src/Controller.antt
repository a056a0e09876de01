-- ===== src/Controller.antt =====
-- internal/controller: the reconcilers, over the diagnoses that the API server stores.
pub mod Store
pub mod Policy
pub mod Pod
pub mod Opened
pub mod Enrich
pub mod Input
pub mod Investigate
pub mod Backstop
pub mod Moves
pub mod Concludes
pub mod Pipeline
pub mod Reachable
pub mod Watch
