-- ===== src/Keypool.antt =====
-- internal/keypool: the pool of keys, their gates and their budgets.
pub mod Budget
pub mod Types
pub mod Manager
pub mod Reload
pub mod Upkeep
