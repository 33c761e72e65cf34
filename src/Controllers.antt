-- ===== src/Controllers.antt =====
-- The package controllers
pub mod Status
pub mod Expiration
pub mod Shoots
pub mod Prepare
pub mod Defaults
pub mod Sharing
pub mod Reconcile
pub mod Scheduled
