-- ===== src/Tests.antt =====
-- Instances of the theorems on concrete rings, connections, servers and commands.
mod Samples
mod Ring
mod Demarcators
mod Programs
mod Services
mod Servers
mod Running
mod Streams
mod Started
mod Watching
mod Threads
mod Starving
mod Commands
