-- ===== src/Propagation.antt =====
-- src/tracer/propagation: how a trace context travels in the headers of a carrier.
pub mod TraceContext
pub mod Multiheader
pub mod W3c
pub mod Options
pub mod Carrier
pub mod CloudTrace
pub mod Extraction
