-- ===== src/Examples.antt =====
-- The theorems at concrete orders, ledgers, engines and leases.
mod Trading
mod Funds
mod Life
mod Sharding
mod Tables
mod Deliveries
mod Live
mod Sending
mod Owners
mod Requests
mod Restart
mod Stuck
