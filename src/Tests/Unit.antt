-- ===== src/Tests/Unit.antt =====
-- The unit tests of src/config.rs and src/handler.rs, on the model with concrete parameters.
mod Config
mod Files
mod Machine
mod Handler
mod Requests
