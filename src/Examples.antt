-- ===== src/Examples.antt =====
-- Small machines, tests on them, and instances of the theorems.
pub mod Families
pub mod Runs
pub mod Meetings
pub mod Contexts
pub mod Machines
pub mod Scheduling
pub mod Channels
pub mod Timeouts
pub mod Blocks
pub mod Alternations
pub mod Signals
pub mod Locks
pub mod Queues
pub mod Traces
pub mod Boards
pub mod Systems
pub mod Interrupted
