-- ===== src/Tests.antt =====
-- Runs of the definitions on small inputs.
pub mod Fixtures
pub mod Sending
pub mod Marking
pub mod Devices
pub mod Publishing
pub mod Endpoints
pub mod Merging
pub mod Mobile
pub mod Automation
pub mod Reading
pub mod Handlers
pub mod Connecting
