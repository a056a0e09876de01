-- ===== src/Detector.antt =====
-- internal/detector: a pod's failure is classified from the pod alone (detector.go), and named
-- (signature.go, in `Detector.Name`).
pub mod Reasons
pub mod Classify
pub mod Spec
pub mod Budget
pub mod Sound
pub mod Complete
pub mod Persist
pub mod Name
pub mod Segments
pub mod Naming
pub mod Unique
