-- ===== src/Checks.antt =====
-- Concrete inputs on which the theorems apply.
mod Broker
mod Jobs
mod Access
mod Exchange
mod Prices
mod Accounts
mod Chain
mod Simulation
mod Research
