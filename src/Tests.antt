-- ===== src/Tests.antt =====
-- The data of the tests, and the theorems at concrete inputs.
mod Data
mod Copying
mod Connections
mod Comparison
mod Running
mod Tools
mod AdminData
mod Administration
mod Dashboard
