-- ===== src/App.antt =====
-- app/: the dashboard's parts that keep state.
pub mod Jobs
pub mod Presentation
pub mod Dashboard
