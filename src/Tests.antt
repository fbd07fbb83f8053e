-- ===== src/Tests.antt =====
-- The theorems at concrete inputs, and runs of the definitions.
mod Inheritance
mod Fields
mod Types
mod Values
mod Snapshots
mod Objects
mod Disk
mod Store
mod Reads
mod Faults
mod Workspace
mod Configs
