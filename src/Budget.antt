-- ===== src/Budget.antt =====
-- Budgets of API keys and users (base_model_wrapper/src/wrapper/auth.py, the pre-flight of
-- routes/api.py and `clamp_max_tokens` of proxy.py).
pub mod Store
pub mod Caller
pub mod Usage
pub mod Auth
pub mod Access
pub mod Preflight
pub mod Ledger
pub mod Commit
pub mod Spend
pub mod Tests
