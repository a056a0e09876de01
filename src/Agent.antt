-- ===== src/Agent.antt =====
-- internal/agent: the investigation loop. It reads through a broker and reasons through a model,
-- both parameters of the loop.
pub mod Model
pub mod Types
pub mod Findings
pub mod Prompt
pub mod State
pub mod Loop
pub mod Spec
pub mod Valid
pub mod Ranking
pub mod Ceiling
pub mod Gate
pub mod Admission
pub mod Bounds
pub mod Metered
pub mod Endings
pub mod Outcome
pub mod Texts
pub mod Scripted
