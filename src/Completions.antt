-- ===== src/Completions.antt =====
-- Requests to /v1/completions (base_model_wrapper/src/wrapper/schemas.py and
-- services/completions.py).
pub mod Prompt
pub mod Request
pub mod Checks
pub mod Limits
pub mod Tests
