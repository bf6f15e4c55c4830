-- ===== src/Tests.antt =====
-- Runs of the definitions on concrete inputs, and the theorems at concrete inputs.
mod Fixtures
mod HostTests
mod HttpioTests
mod TamperTests
mod DnsTests
mod HttpsTests
mod WsTests
mod CertsTests
mod MitmTests
mod ConfigTests
mod DiscordTests
mod GroupTests
mod BenchTests
mod GatewayTests
mod LatencyTests
mod MainTests
mod SessionTests
mod VisitTests
mod ServedTests
mod DriverTests
mod ReportTests
