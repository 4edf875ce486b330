-- ===== src/Examples.antt =====
-- Runs of the theorems at concrete inputs.
mod Data
mod Paths
mod Reads
mod Connections
mod Disk
mod DiskLaws
mod Waits
mod Copies
