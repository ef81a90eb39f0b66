-- ===== src/Scenarios.antt =====
-- Tests, and the theorems at concrete inputs.
mod Crates
mod Packets
mod Routers
mod Neighbors
mod Ordering
mod Runs
mod Configs
mod Links
mod Setup
mod Election
mod Sockets
mod Listening
mod Serving
mod Program
mod Kernel
mod Elects
mod DualStack
