-- ===== src/Pintos/Tests.antt =====
-- Concrete devices and file systems, and the theorems at them.
mod Fixtures
mod Bits
mod Contents
mod Files
mod Systems
mod Waits
mod Schedules
mod Queues
