-- ===== src/Tests.antt =====
-- Runs on concrete inputs, and each theorem with hypotheses at an input where they hold.
mod Recycle
mod Data
mod Store
mod Queue
mod Ends
mod Auth
mod Sync
mod Outward
mod Times
