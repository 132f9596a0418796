-- ===== src/Recorder.antt =====
-- src/recorder: what becomes of finished spans. Each recorder and the request that it builds has a
-- module.
pub mod ReportRequest
pub mod LegacyManual
pub mod Metrics
pub mod Manual
pub mod SpanStream
pub mod StatusLine
pub mod Connection
pub mod Auto
