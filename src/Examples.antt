-- ===== src/Examples.antt =====
-- Runs of the code on concrete clusters, submissions and conversations.
mod Data
mod Sorting
mod Source
mod Gemini
mod Detector
mod Agent
mod Evidence
mod Tools
mod Controller
mod Watching
