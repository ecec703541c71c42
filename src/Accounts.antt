-- ===== src/Accounts.antt =====
-- services/api/pilot_identity.py, and the accounts and sessions of services/api/store.py.
pub mod Model
pub mod Store
pub mod Gives
pub mod Checks
pub mod Creation
pub mod Managers
pub mod Managed
pub mod Local
pub mod Login
pub mod Lockout
pub mod Entry
pub mod Lifetime
mod Tests
pub mod Refusals
pub mod Guesses
pub mod Admin
pub mod Requests
