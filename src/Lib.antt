-- ===== src/Lib.antt =====
-- A model of the native plugin library of this repository, with the theorems that make it correct.
--
-- The plugin runs on a player host. A callback thread hands playlist observations to a worker
-- (CallbackHandoff), the brightness engine scales every outgoing frame, nodes exchange the engine's
-- state over MultiSync, and small files keep the event sequence and the state across restarts. The
-- operator's settings choose the channels, and a detector decides when the coordinator is lost.
--
-- The files and what they model, paths from the repository's root:
--   Base, with Base/Tests, Lists, Int, Text: shared helpers. ℤ stands for the signed integers, and a
--     string is the list of its bytes.
--   Decimal: std::to_string and the digit loop of strtoull, used by the settings and the store.
--   Fading: FadingValue of native/include/showmesh/fading_value.h.
--   Ranges: ChannelRange, validateRanges, recomputeScaledSpans and the channel loop of applyToFrame,
--     in native/src/brightness.cpp. Its children hold the proofs on sorting, carving and scaling.
--   Brightness: the rest of native/src/brightness.cpp. State has the members and the small
--     functions, Commands the local operations and the frame, Adopt adoptState, Restore
--     restoreFromPersisted and settleSafeAfterUntrustedRestart. Order, Convergence, Restart, Gate,
--     Local, Output, Configure and Run hold the theorems. The operations take the hash of the
--     ordering key as an argument, which Hash gives as the program computes it.
--   Handoff: CallbackHandoff of native/include/showmesh/callback_handoff.h. Refinement has the
--     bounded queue it implements, Accounting what the reported gaps mean.
--   Outage: CoordinatorOutageDetector of native/adapters/shared/fallback_outage_detector.h.
--   Setting: native/src/channel_ranges_setting.cpp, and in Ceiling safe_ceiling_setting.cpp
--     and parseOutageSetting.
--     Configure has the functions that put the settings into the engine.
--   Store: native/src/atomic_write.cpp, and in Sequence native/src/sequence_store.cpp.
--     State of that folder has native/src/brightness_store.cpp, and Loaded its proofs; Durable puts
--     the hash and the codec in.
--   Identity: native/src/playlist_identity.cpp; Handoff/Evidence has the copied observation.
--   Json: native/include/showmesh/json.h and native/src/json.cpp. Text has the strings, Number the
--     numbers, Parser and Writer the two directions; the other children hold the proofs, Total that
--     the parser ends, Canonical and SortedOnce the round trips, Ordered the order of the members.
--   Sha256: native/src/sha256.cpp. Stream and Padding relate it to the padded message of FIPS 180-4.
--   Codec: native/src/brightness_codec.cpp, over Json.
--   Route: native/src/transition_gain.cpp in TransitionGain, weather_gate.cpp in WeatherGate and
--     excluded_ranges.cpp in ChannelRanges.
--   Payload: native/src/observation_payload.cpp.
--   Republish: native/src/definition_republish.cpp, over Json.
--   Witnesses: each theorem at a concrete input.
--
-- State is passed explicitly: an operation that changes an object is a function from it to the new
-- one, beside its result. A method that holds a mutex for its whole body is one step, so two threads
-- are a list of calls. A std::uint32_t or std::uint64_t is a natural number whose sums are reduced;
-- std::int64_t is ℤ without its bounds. A double is a value of an abstract type with the comparison,
-- arithmetic and rounding that the source applies to it: the laws assumed of it are that `<` is a
-- strict order, that the integers from 0 to 100 are converted exactly and given back by std::lround,
-- and that std::lround keeps the order of the doubles from 0 to 100; a result that is no finite double
-- (an overflow, a NaN) is outside the model. The codec and the range
-- routes assume besides that the integers which a double holds exactly are whole, come back from the
-- conversion, and are compared and added as integers (Codec/Exact, Route/RangesFit). The digits of
-- snprintf and strtod are arguments (Json/Number): where a theorem needs that a number is read back,
-- it is a condition on that number (IsReadBack in Json/Readable). Log lines and error
-- messages are values of data types. The file system's answers to each call of a store are an
-- argument, the opens for reading included, so that a failure of each of these calls, and a stop
-- between two of them, is a case; a file that opens is read whole. A theorem that needs the opens for
-- reading to succeed says so.
--
-- Three definitions use fuel, and for each a theorem shows that it is enough: show_fuel, which writes
-- the digits of a number, is given twenty, and a 64-bit number has no more; the JSON parser is given
-- three units for each byte and one more, two for the nesting of a value and one for the value; the
-- padding of the hash is given 64, the size of the block that it fills. The loops of update and of
-- parseString are given the length of their data.
--
-- Not modelled: the coordinator client, pairing, the observation worker, the command targets, the
-- fallback executor and the brightness query; the text of the routes' refusals; the failure of the
-- locale guard in json.cpp; the host adapters, which are glue, and the Go helper under cmd.
pub mod Base
pub mod Fading
pub mod Ranges
pub mod Decimal
pub mod Store
pub mod Setting
pub mod Brightness
pub mod Handoff
pub mod Outage
pub mod Json
pub mod Sha256
pub mod Codec
pub mod Route
pub mod Payload
pub mod Republish
pub mod Identity
pub mod Witnesses
