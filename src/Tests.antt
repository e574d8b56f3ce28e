-- ===== src/Tests.antt =====
-- Runs of the controllers in a small cluster, at which the theorems apply.
mod World
mod Users
mod Deletion
mod Resources
mod Codec
mod Links
mod Registered
mod Configs
mod Runs
mod Calm
mod Copies
mod Process
mod Frees
