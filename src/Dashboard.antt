-- ===== src/Dashboard.antt =====
-- frontend/src: the state of the admin dashboard's pages, and what they do with the backend's answers.
pub mod Api
pub mod CreateAccountModal
pub mod Polling
pub mod TradesPage
pub mod SlaveDetailPage
pub mod TradeFeed
