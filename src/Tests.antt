-- ===== src/Tests.antt =====
-- The theorems at concrete inputs, and small runs of the definitions.
pub mod Hosts
pub mod Compile
pub mod Files
pub mod Machine
pub mod Front
pub mod Parse
pub mod Session
pub mod Drive
pub mod Foreign
