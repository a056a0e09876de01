-- ===== src/Evidence.antt =====
-- internal/evidence: what a diagnosis needs, how it is gathered, and how it is scrubbed.
pub mod Matrix
pub mod Redact
pub mod Collect
pub mod Planning
pub mod Catalogue
pub mod Source
pub mod Reads
pub mod Confined
pub mod Secrecy
pub mod Reported
pub mod Mentioned
pub mod Answered
pub mod Recorded
pub mod Serving
pub mod Revisions
pub mod Regex
pub mod Patterns
pub mod Matching
pub mod Scrubbed
