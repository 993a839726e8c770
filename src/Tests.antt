-- ===== src/Tests.antt =====
-- Examples of the theorems at concrete inputs.
mod Memory
mod Heap
mod Threads
mod Devices
mod Tables
mod Objects
mod Locks
mod Stacks
mod Reports
mod Boot
mod Screen
mod Start
