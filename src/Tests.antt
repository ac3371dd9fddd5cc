-- ===== src/Tests.antt =====
-- The components on concrete inputs.
mod RingTests
mod FrameTests
mod ToolsTests
mod StreamTests
mod HistoryTests
mod ConnectionTests
mod SessionsTests
mod CapabilityTests
mod EscapeTests
mod TurnTests
mod BuildTests
mod HttpTests
mod BeginTests
mod JsonBuilderTests
