-- ===== src/Tests.antt =====
-- Concrete inputs, what the definitions compute on them, and the theorems at them.
mod Samples
mod Rules
mod Accounting
mod Proxy
mod Config
mod Admin
mod Devices
mod Sqlite
