-- ===== src/Tests.antt =====
-- Examples of the theorems and runs of the definitions at concrete inputs.
mod Data
mod Transfers
mod Stores
mod Customers
mod Leases
mod Accounts
mod Clients
mod Endpoints
mod Configs
