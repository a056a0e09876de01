-- ===== src/Api.antt =====
-- The custom resources of api/v1alpha1.
pub mod Failure
pub mod Evidence
pub mod Diagnosis
pub mod Policy
