-- ===== src/Tests.antt =====
-- Runs at concrete inputs, and the theorems at inputs that meet their hypotheses.
mod Hex
mod Propagation
mod Buffer
mod Serialization
mod Stream
mod Recorder
mod Auto
mod Manual
mod Map
mod SpanStream
mod Network
mod StatusLine
mod Traverser
mod Connection
