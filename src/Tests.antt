-- ===== src/Tests.antt =====
-- A small machine on which the theorems apply, and the theorems at concrete inputs.
mod World
mod Writes
mod Sessions
mod Steps
mod Arm
mod Entries
mod Memory
mod Prints
mod Threads
mod Tracker
mod Values
mod Stubs
mod Lookups
