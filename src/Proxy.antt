-- ===== src/Proxy.antt =====
-- proxy/handler.go and proxy/halts.go: the stores together, and what a request does to them.
pub mod Mesh
pub mod Floors
pub mod Calls
pub mod Halts
pub mod Decide
pub mod Completion
pub mod Admin
