-- ===== src/Tests.antt =====
-- Runs of the definitions, and the theorems at concrete inputs.
mod Samples
mod MatchTests
mod PolicyTests
mod GrantTests
mod HaltTests
mod LimitTests
mod PinTests
mod ApprovalTests
mod ProxyTests
mod McpTests
mod MemoryTests
mod TraceTests
mod ExecTests
mod AdminTests
mod SupervisorTests
mod SessionTests
