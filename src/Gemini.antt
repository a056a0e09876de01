-- ===== src/Gemini.antt =====
-- internal/model/gemini: the adapter from the loop's model to Gemini, and cmd/model.go, which builds
-- it from the environment.
pub mod Convert
pub mod Generate
pub mod Environment
pub mod Configured
pub mod Replay
pub mod Keys
pub mod Answers
pub mod Turns
pub mod Conversation
