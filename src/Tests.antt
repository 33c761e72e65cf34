-- ===== src/Tests.antt =====
-- Concrete inputs, runs of the definitions on them, and applications of the theorems to them.
mod Data
mod Images
mod Filters
mod Aged
mod Sources
mod Profiles
mod Written
mod Sharing
mod Shown
mod Required
mod Reconciled
mod Schedules
mod Start
