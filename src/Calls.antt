-- ===== src/Calls.antt =====
-- llm/calls.py: a call to a model. The images of a request are in Calls.Images, what is read of a
-- response in Calls.Diagnostics, a stream of chunks in Calls.Stream, and the runner in Calls.Runner.
pub mod Images
pub mod Diagnostics
pub mod Stream
pub mod Errors
pub mod Runner
