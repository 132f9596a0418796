-- ===== src/Propagation/Options.antt =====
-- src/tracer/propagation/propagation_options.cpp: which propagators a tracer injects and extracts with.
use lightstep_tracer_cpp.Base.{Bool, true, false, ◌||◌, List, [], ◌∷◌, ◌++◌, if◌then◌else◌}
pub mod Unique

pub data PropagationMode : Type 0 where
  lightstep b3 envoy trace_context cloud_trace : PropagationMode

unfoldable pub mode_eq : PropagationMode → PropagationMode → Bool
mode_eq lightstep lightstep = true
mode_eq b3 b3 = true
mode_eq envoy envoy = true
mode_eq trace_context trace_context = true
mode_eq cloud_trace cloud_trace = true
mode_eq _ _ = false

-- `std::set<PropagationMode>`, used as a membership test.
unfoldable pub contains : List PropagationMode → PropagationMode → Bool
contains [] m = false
contains (n ∷ ns) m = mode_eq m n || contains ns m

-- The loop over the modes, with the set of those seen.
unfoldable pub uniqify_from : List PropagationMode → List PropagationMode → List PropagationMode
uniqify_from values [] = []
uniqify_from values (m ∷ ms) =
    let seen = uniqify_from values ms in
    let fresh = m ∷ uniqify_from (m ∷ values) ms in if contains values m then seen else fresh

unfoldable pub uniqify_propagation_modes : List PropagationMode → List PropagationMode
uniqify_propagation_modes ms = uniqify_from [] ms

-- Envoy is followed by the LightStep extraction.
unfoldable pub extract_modes : List PropagationMode → List PropagationMode
extract_modes [] = []
extract_modes (envoy ∷ ms) = envoy ∷ lightstep ∷ extract_modes ms
extract_modes (m ∷ ms) = m ∷ extract_modes ms

-- The two output vectors, inject modes first.
unfoldable pub set_inject_extract_propagation_modes :
    List PropagationMode → List PropagationMode × List PropagationMode
set_inject_extract_propagation_modes ms =
    (uniqify_propagation_modes ms, uniqify_propagation_modes (extract_modes ms))

-- The concrete propagators that `MakePropagators` and `MakePropagationOptions` create.
pub data PropagatorKind : Type 0 where
  lightstep_propagator b3_propagator envoy_propagator trace_context_propagator : PropagatorKind
  cloud_trace_propagator baggage_propagator : PropagatorKind

unfoldable pub make_propagator : PropagationMode → PropagatorKind
make_propagator lightstep = lightstep_propagator
make_propagator b3 = b3_propagator
make_propagator envoy = envoy_propagator
make_propagator trace_context = trace_context_propagator
make_propagator cloud_trace = cloud_trace_propagator

unfoldable pub make_propagators : List PropagationMode → List PropagatorKind
make_propagators [] = []
make_propagators (m ∷ ms) = make_propagator m ∷ make_propagators ms

pub record PropagationOptions : Type 0 where
  pub inject_propagators : List PropagatorKind
  pub extract_propagators : List PropagatorKind

-- `options.propagation_modes` and `options.use_single_key_propagation`.
unfoldable pub chosen_modes : List PropagationMode → Bool → List PropagationMode
chosen_modes [] single_key = (if single_key then envoy else lightstep) ∷ []
chosen_modes (m ∷ ms) single_key = m ∷ ms

unfoldable pub is_envoy_only : List PropagationMode → Bool
is_envoy_only (envoy ∷ []) = true
is_envoy_only _ = false

unfoldable pub make_propagation_options : List PropagationMode → Bool → PropagationOptions
make_propagation_options modes single_key =
    let propagation_modes = chosen_modes modes single_key in
    let (inject, extract) = set_inject_extract_propagation_modes propagation_modes in
    record {
      inject_propagators =
          make_propagators inject
          ++ (if is_envoy_only propagation_modes then [] else baggage_propagator ∷ []);
      extract_propagators = make_propagators extract;
    }
