-- ===== src/Lib.antt =====
-- The MEX functions of srsRAN_matlab (+srsMEX/source): C++ objects that MATLAB calls to run srsRAN's
-- uplink receivers on its own signals. Each object inherits from a dispatcher, which looks the action
-- that the first input names up in a table of callbacks and runs it. An action checks its inputs,
-- converts MATLAB's values to srsRAN's configurations, has srsRAN do the processing, and puts the
-- results into its outputs. The PUSCH decoder also keeps softbuffer pools alive between the calls,
-- each under a key that MATLAB holds.
--
-- Which file models which part (paths from the repository's root):
--   Mex/Outcome, Mex/Call   how a call ends: by a value, or by mex_abort
--                           (+srsMEX/source/include/srsran_matlab/srsran_mex_dispatcher.h),
--                           srsran_terminate, a failed assertion, an exception of the MATLAB API, a
--                           null pointer or a division by zero. mex_abort calls MATLAB's error,
--                           which throws, so nothing after it runs. Call passes the object's state,
--                           which is kept when a call stops.
--   Mex/Inputs              what the sources use of the MATLAB Data API
--   Mex/Dispatcher          srsran_mex_dispatcher.h: create_callback and operator(); Table and History
--                           have what holds of any table of callbacks and of any list of calls
--   Memento                 +srsMEX/source/include/srsran_matlab/support/memento.h: Memento.antt has
--                           the storage, Memento/Lookup, Keys and Runs its theorems
--   Convert                 .../support/matlab_to_srs.h
--   Span, Grid              .../support/factory_functions.h and
--                           +srsMEX/source/lib/support/resource_grid.cpp
--   Decoder                 +srsMEX/source/lib/phy/upper/channel_processors/pusch_decoder_mex.{h,cpp}:
--                           Inputs has the checks and what is read, Methods the object and its
--                           methods, Factory create_pusch_decoder and the load of the object, Spec the
--                           specification, Contract and New its refinement by each method, Dispatch and
--                           History by whole calls and lists of calls, Isolation is about the pools that
--                           a list of calls does not name, and Lifecycle, Release, Returns and
--                           Roundtrip are about single calls
--   Demodulator             .../pusch_demodulator_mex.{h,cpp}: Codeword has
--                           pusch_codeword_buffer_spy, Inputs the checks and the channel estimates,
--                           Methods the object and its methods, Factory create_pusch_demodulator;
--                           Output and Delivered are about the soft bits that a step returns
--   Pucch                   .../pucch_processor_mex.{h,cpp}: Populate has the populate functions,
--                           Processor has call_processor, Step has method_step, Factory has
--                           create_pucch_processor; Fields and the modules of the formats are about
--                           what is read from the configuration, Entries, Multiplex and Rows about
--                           multiplexed transmissions, Single about the others, Message and Reported
--                           about the payloads, Checks and Served about a whole step
--   Prach                   .../prach_detector_mex.{h,cpp}: Step has the methods, Factory has
--                           create_prach_detector and create_prach_validator; Read is about the
--                           configuration and the structure that is returned, Fill about the buffer,
--                           Detect and Detected about a whole step
--   Estimator               +srsMEX/source/lib/phy/upper/signal_processors/
--                           multiport_channel_estimator_mex.{h,cpp}: Inputs has the checks and what is
--                           read, Outputs the arrays that are returned, Methods the object,
--                           Factory create_port_channel_estimator; Layers is about the DM-RS patterns,
--                           Pilots about the slices of the pilots, Written and Rows about the arrays,
--                           Checked and Estimated about a whole step
--   Bitset                  srsRAN's bounded bitsets, as the sources fill them: a list of bits that has
--                           to fit a capacity
--   Capabilities            .../pusch_processor_capabilities_mex.cpp
--   Unittest                +srsMEX/source/unittests/srsran_mex_dispatcher_test.cpp
--   Tests                   small instances of the libraries, and runs
--
-- Conventions. A function of the source is a definition of its name; parts of a long function have
-- names of their own. A span is the list of the elements that it views; where std::span has a
-- precondition (first, last, subspan), breaking it is a failed assertion. An unsigned is a number
-- below 2 ^ 32, with the wrap written out (u32, sub32) where a size is converted or subtracted. An
-- int8_t is its bit pattern. A shared pointer is an address, 0 the null pointer; the decoder's state
-- has the heap of the mementos that are alive. A loop is recursion on the rounds left
-- (for_range in Mex/Loop). A call through a null pointer is undefined in C++: here it is an error of
-- its own, null_dereference, a call that has no outputs; nothing else is meant to hold of the code
-- after it.
--
-- Parameters. The MATLAB Data API (Matlab), srsRAN's resource grid (GridApi with the laws IsGrid),
-- PUSCH decoder (DecoderApi), demodulator with its channel estimates (DemodulatorApi with
-- IsEstimate), PUCCH processor, validator and batch (PucchApi with IsBatch), PRACH buffer and
-- detector (PrachApi with IsBuffer), channel estimator, its pilots and floating point numbers
-- (EstimatorApi with IsPilots and IsSized), the factories of each of them, which are shared pointers
-- that may be null (DecoderFactories, DemodulatorFactories, PucchFactories, PrachFactories,
-- EstimatorFactories), std::hash and std::make_shared (Runtime with IsRuntime) are not
-- part of the repository. Parameters too are the conversions to the lower precision that the grid,
-- the PRACH buffer and the channel estimates are stored with (to_element, to_cf, to_cbf16), the
-- capacities of the bitsets, what `cfg.dmrs_pattern[0]` is where there are no layers
-- (pattern_of_none) and what a batch's results give for a transmission that they do not have
-- (results_get_missing). Each is a record, and what is assumed of it a record of laws; Tests has an
-- instance of each.
--
-- Not modelled: to_span, which casts the iterators of an array to pointers; the context member of the
-- PUCCH configurations, which is always empty; the statistics of the demodulator's notifier, which are
-- never read; all MATLAB code. create_rx_buffer_pool is taken to return a pool.
pub mod Prelude
pub mod Mex
pub mod Memento
pub mod Convert
pub mod Span
pub mod Grid
pub mod Decoder
pub mod Demodulator
pub mod Pucch
pub mod Bitset
pub mod Prach
pub mod Estimator
pub mod Capabilities
pub mod Unittest
mod Tests
