-- ===== src/Tests.antt =====
-- The theorems at concrete inputs, over concrete instances of what the program does not implement.
mod Instances
mod Storing
mod Counting
mod Orders
mod Queues
mod Rebuilding
mod Looping
mod Filtering
mod Windows
mod Processes
mod Reading
mod Monitoring
mod Starting
mod Systems
mod Refreshing
mod Labelling
mod Running
mod Desktop
