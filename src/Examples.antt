-- ===== src/Examples.antt =====
-- The theorems at concrete inputs: a cluster with one machine, one job and its tasks.
mod Objects
mod Cluster
mod Jobs
mod Runs
mod Lawful
mod Obedient
mod Driven
mod Life
mod Tasks
mod Machines
mod Options
mod Starts
mod Stored
mod Memory
