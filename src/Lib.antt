-- ===== src/Lib.antt =====
-- The core of the LightStep C++ tracer: how span contexts travel in carriers, how finished spans are
-- buffered, counted and turned into requests, and the byte streams in which they are written out.
-- Paths below are from the root of the repository.
--
-- The parts and how they interact. A finished span is serialized into a chained stream and put into
-- the lock-free circular buffer by the thread that finishes it; a recorder takes the spans out, puts
-- them into a report request, and hands it to a transporter. Streams of fragments are written to
-- sockets piece by piece, and Consume advances them past what was written. Contexts are injected into
-- and extracted from carriers by the propagators, which print and parse ids in hex or decimal.
--
-- - Base, Base.Lists, Base.Tests, Base.Bits: shared names, lists and tests over the native numbers,
--   and laws of bit_and and bit_or. Expected: opentracing::expected with the error codes that occur,
--   and a third outcome, undefined, for a read outside an array.
-- - Hex: src/common/hex_conversion.h and .cpp, with Hex.Trim and Hex.Value for what is read, said without
--   its loops. hex_to_uint_impl is HexToUintImpl, hex_to_uint64,
--   hex_to_uint128 and the normalized_ functions the parsers of the same names, write_hex_bytes the
--   loop of the writers, uint64_to_hex and its like the writers. A string is the list of its bytes;
--   numbers wrap at 2 ^ w where the code shifts. Decimal: the decimal printing and strtoull that
--   src/tracer/propagation/cloud_trace_propagator.cpp uses; print_digits has fuel for the 20 digits
--   that a number below 2 ^ 64 can have.
-- - Propagation.TraceContext: src/tracer/propagation/trace_context.h and .cpp (ParseTraceContext,
--   SerializeTraceContext); a parser that writes its output parameter as it goes is a function from
--   what the parameter holds. Propagation.CloudTrace: the format of
--   src/tracer/propagation/cloud_trace_propagator.cpp. Propagation.Carrier: carriers as lists of
--   entries, the key comparisons, ForeachKey. Propagation.Multiheader: InjectSpanContext and
--   ExtractSpanContext of src/tracer/propagation/multiheader_propagator.cpp, for the B3 and the
--   LightStep header names. Propagation.W3c: src/tracer/propagation/trace_context_propagator.cpp.
--   Propagation.Extraction: ExtractSpanContextImpl of src/tracer/propagation/propagation.cpp, which tries
--   one propagator after the other. Propagation.Options: src/tracer/propagation/propagation_options.cpp.
-- - CircularBuffer: src/common/circular_buffer.h, circular_buffer_range.h and atomic_unique_ptr.h. A
--   call of Add is a program counter that each atomic access moves on; the world has any number of
--   producers and one consumer, and Step lets any of them go on next. The counters grow without
--   bound, as 64-bit counters do in practice. CircularBuffer.Ownership follows the elements of the calls.
-- - FlatMap: src/common/flat_map.h, over any order of the keys.
-- - RandomTraverser: src/common/random_traverser.h and .cpp; the numbers drawn are a parameter.
-- - Stream: FragmentInputStream as a record of operations and laws, and Consume
--   (src/common/fragment_input_stream.h and .cpp). Stream.Array, Stream.Composed and Stream.Chained
--   are the implementations, src/common/fragment_array_input_stream.cpp,
--   composable_fragment_input_stream.cpp and chained_stream.cpp. A fragment is
--   the list of its bytes, a pointer into a chain of blocks an index, and a null pointer the index
--   behind the last block. Stream.Cursor and Stream.Positions hold the lemmas that they share.
-- - Recorder.ReportRequest: src/recorder/serialization/report_request.cpp, on top of the streams.
--   Recorder.LegacyManual: src/recorder/legacy_manual_recorder.cpp and report_builder.cpp, the calls
--   and the callbacks of the transporter as steps. Recorder.Auto: src/recorder/auto_recorder.cpp, each
--   section under the lock as a step of the writer or of another thread. Ghost fields count what was
--   recorded and what reports that succeeded have carried.
-- - Value: opentracing::Value and its JSON, WriteEscapedString and ToJson of src/common/utility.cpp; the
--   writer keeps the base of the stream, which std::hex changes for good. print_hex has fuel for the 16
--   digits of a 64-bit number. Value.Json.Reader is a strict reader of JSON strings to
--   compare with.
-- - Serialization: src/common/serialization.h and src/common/direct_coded_output_stream.h, the writers of
--   fields, which write through a CodedOutputStream or directly into its buffer. Serialization.KeyValue:
--   src/common/serialization.cpp. Serialization.Framing: src/common/report_request_framing.h and .cpp and
--   src/common/chunked_http_framing.h and .cpp. Serialization.Span: src/tracer/serialization.cpp, each part
--   of a span. Serialization.Wire is the wire format of protobuf as a reference, with the ten groups that
--   a varint can have; Serialization.Writers and Serialization.Sizes relate the two.
-- - Recorder.Metrics: src/recorder/metrics_tracker.h and .cpp. Recorder.Manual:
--   src/recorder/manual_recorder.h and .cpp, the sections between two atomic operations as steps of any
--   threads. Its buffer of spans is a queue that stands for the circular buffer, and so is that of
--   Recorder.SpanStream: src/recorder/stream_recorder/span_stream.h and .cpp.
-- - Recorder.StatusLine: src/recorder/stream_recorder/status_line_parser.h and .cpp, and the loop of
--   SatelliteConnection::OnReadable that hands it what is read.
-- - Recorder.Connection: src/recorder/stream_recorder/connection_stream.h and .cpp, on the shared stream of
--   spans; print_upper_hex has fuel for the 16 digits of a 64-bit size. Recorder.Connection.Drops has the
--   connections as a world whose steps come in any order.
-- - Stream.VectorWrite: Write of src/network/vector_write.cpp, on any lawful streams.
-- - Tests: runs at concrete inputs, and the theorems at inputs that meet their hypotheses.
--
-- What is a parameter. The static functions of protobuf's CodedOutputStream are the record CodedOutput,
-- and IsProtobuf says that they write varints and little-endian words as protobuf documents. The printing
-- of a double is the record Doubles. The answers of WriteV and the size of the largest batch are arguments
-- of Write, as is the writer that a connection is flushed with. Whether the transporter of the legacy
-- recorder throws is an argument of the step; Send of an AsyncTransporter is noexcept.
--
-- What is not modelled. Memory orders: atomic accesses interleave. Allocation failures, logging,
-- clocks and time-outs, which appear as choices of the steps. Protobuf messages: their bytes are
-- parameters. Assertions have no effect, but what they ask for is in the invariants of the streams.
-- The functions of a carrier that a client supplies are parameters or are instances on lists. Of the
-- stream recorder the sockets, the event loop and the name resolution, further the spans and the
-- tracer, the Envoy and the binary carriers, and the platform code have no module here.
pub mod Base
pub mod Expected
pub mod Hex
pub mod Decimal
pub mod FlatMap
pub mod RandomTraverser
pub mod CircularBuffer
pub mod Stream
pub mod Value
pub mod Serialization
pub mod Recorder
pub mod Propagation
pub mod Tests
