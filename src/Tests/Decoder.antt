-- ===== src/Tests/Decoder.antt =====
-- pusch_decoder_mex.cpp with pools that count their free buffers, and addresses as hashes.
use srs_ran_matlab.Prelude.{
  ℕ, ◌+◌, ◌-◌, ◌<◌, ◌≡◌, refl, true, not, List, [], ◌∷◌, none, ◌==◌, arith,
}
use srs_ran_matlab.Mex.{logical, uint64, int8}
use srs_ran_matlab.Mex.Call.{left}
use srs_ran_matlab.Mex.Dispatcher.{Callbacks, create_callback, create_callbacks, dispatch, find}
use srs_ran_matlab.Memento.{get_memento}
use srs_ran_matlab.Memento.{find as find_memento}
use srs_ran_matlab.Decoder.Api.{DecoderApi, Runtime, IsRuntime, IsFresh}
use srs_ran_matlab.Decoder.Heap.{pool_at}
use srs_ran_matlab.Decoder.Methods.{
  DecoderMex, Reply, method_new, method_step, method_reset_crcs, method_release, construct,
}
use srs_ran_matlab.Decoder.Spec.{spec_new, spec_step, spec_reset_crcs, spec_release, view}
use srs_ran_matlab.Decoder.Retrieve.{IsValid}
use srs_ran_matlab.Decoder.Refines.{Refines}
use srs_ran_matlab.Decoder.Contract.{
  method_step-Refines, method_reset_crcs-Refines, method_release-Refines,
}
use srs_ran_matlab.Decoder.New.{next_key, method_new-Refines}
use srs_ran_matlab.Decoder.Lifecycle.{constructed, called, Reach-IsValid}
use srs_ran_matlab.Tests.Values.{Value, chars, tensor, structs, leaf_num, leaf_text, matlab}

-- A pool is the number of its free buffers; a buffer is 1, or 0 if there was none free.
abbrev pub decoder_api : DecoderApi ℕ
decoder_api = record {
  Pool = ℕ;
  Buffer = ℕ;
  Decoder = ℕ;
  Session = ℕ × ℕ × ℕ × List ℕ;
  DecoderResult = ℕ;
  Mean = ℕ;
  tb_crc_ok = λ r. not (r == 0);
  get_max = λ r. r;
  get_mean = λ r. r;
  create_rx_buffer_pool = λ config. config.nof_buffers;
  reserve = λ pool id nof_codeblocks is_new_data. (pool - 1, pool - (pool - 1));
  is_valid = λ buffer. not (buffer == 0);
  reset_codeblocks_crc = λ pool buffer. pool;
  unlock = λ pool buffer. pool + buffer;
  new_data = λ decoder pool tb buffer cfg. (decoder, pool, buffer, tb);
  on_new_softbits = λ s llrs. (s.0 + 1, s.1, s.2, s.3);
  on_end_softbits = λ s. (s.0, s.1 + s.2, 0, s.3);
  notified = λ s. s.0 ∷ [];
  rx_tb = λ s. s.3;
  pool_after = λ s. s.1;
  decoder_after = λ s. s.0;
  compute_nof_codeblocks = λ tbs base_graph. 1;
  is_byte_exact = λ tbs. true;
  round_up_to_bytes = λ tbs. 2;
}

abbrev sum : List ℕ → ℕ
sum [] = 0
sum (a ∷ live) = a + sum live

abbrev pub runtime : Runtime
runtime = record { hash = λ a. a; allocate = λ live. 1 + sum live }

beyond-IsFresh : (a : ℕ) (live : List ℕ) → sum live < a → IsFresh a live
beyond-IsFresh a [] h = tt
beyond-IsFresh a (b ∷ live) h = (ground arith, beyond-IsFresh a live (omega arith))

pub runtime-IsRuntime : IsRuntime runtime
runtime-IsRuntime = record {
  hash_injective = λ a b e. e;
  allocate-ne-null = λ live. ground arith;
  allocate-IsFresh = λ live. beyond-IsFresh (1 + sum live) live (omega arith);
}

abbrev Mex : Type 0
Mex = DecoderMex matlab decoder_api runtime

abbrev pub new_inputs : List Value
new_inputs =
    chars "new"
    ∷ structs (
        (("MaxCodeblockSize", leaf_num 100)
          ∷ ("MaxSoftbuffers", leaf_num 2)
          ∷ ("MaxCodeblocks", leaf_num 4)
          ∷ ("ExpireTimeoutSlots", leaf_num 10)
          ∷ [])
        ∷ [])
    ∷ []

abbrev key_of : ℕ → Value
key_of key = tensor uint64 (1 ∷ 1 ∷ []) (key ∷ [])

abbrev buffer_id : Value
buffer_id = structs (
    (("RNTI", leaf_num 17) ∷ ("HARQProcessID", leaf_num 3) ∷ ("NumCodeblocks", leaf_num 1) ∷ [])
    ∷ [])

abbrev pub step_inputs : List Value
step_inputs =
    chars "step"
    ∷ key_of 1
    ∷ tensor int8 (4 ∷ 1 ∷ []) (1 ∷ 2 ∷ 3 ∷ 4 ∷ [])
    ∷ tensor logical (1 ∷ 1 ∷ []) (1 ∷ [])
    ∷ structs (
        (("BGN", leaf_num 1)
          ∷ ("Modulation", leaf_text "QPSK")
          ∷ ("NumLayers", leaf_num 1)
          ∷ ("RV", leaf_num 0)
          ∷ ("LimitedBufferSize", leaf_num 0)
          ∷ ("MaximumLDPCIterationCount", leaf_num 6)
          ∷ ("TransportBlockLength", leaf_num 16)
          ∷ [])
        ∷ [])
    ∷ buffer_id
    ∷ []

abbrev pub reset_inputs : List Value
reset_inputs = chars "reset_crcs" ∷ key_of 1 ∷ buffer_id ∷ []

abbrev pub release_inputs : List Value
release_inputs = chars "release" ∷ key_of 1 ∷ []

abbrev pub fresh : Mex
fresh = record { decoder = 0; storage = []; heap = [] }

pub fresh-IsValid : IsValid matlab decoder_api runtime fresh
unfolding get_memento
fresh-IsValid = record { consistent = tt; live = λ k n. absurd (n refl) }

-- One pool with two free buffers under the key 1.
abbrev pub one_pool : Mex
one_pool = record { decoder = 0; storage = (1, 1) ∷ []; heap = (1, 2) ∷ [] }

pub one_pool-IsValid : IsValid matlab decoder_api runtime one_pool
unfolding get_memento find_memento pool_at
one_pool-IsValid = record {
  consistent = (refl, ground arith, refl, tt);
  live = λ k n. ground arith;
}

method_step-Refines_example :
    Refines matlab decoder_api runtime
      (method_step matlab decoder_api runtime 2 step_inputs one_pool)
      (spec_step matlab decoder_api runtime 2 step_inputs
        (view matlab decoder_api runtime one_pool))
method_step-Refines_example =
    method_step-Refines matlab decoder_api runtime 2 step_inputs one_pool one_pool-IsValid

method_reset_crcs-Refines_example :
    Refines matlab decoder_api runtime
      (method_reset_crcs matlab decoder_api runtime 0 reset_inputs one_pool)
      (spec_reset_crcs matlab decoder_api runtime 0 reset_inputs
        (view matlab decoder_api runtime one_pool))
method_reset_crcs-Refines_example =
    method_reset_crcs-Refines matlab decoder_api runtime 0 reset_inputs one_pool one_pool-IsValid

method_release-Refines_example :
    Refines matlab decoder_api runtime
      (method_release matlab decoder_api runtime 0 release_inputs one_pool)
      (spec_release matlab decoder_api runtime 0 release_inputs
        (view matlab decoder_api runtime one_pool))
method_release-Refines_example =
    method_release-Refines matlab decoder_api runtime 0 release_inputs one_pool one_pool-IsValid

method_new-Refines_example :
    Refines matlab decoder_api runtime
      (method_new matlab decoder_api runtime 1 new_inputs one_pool)
      (spec_new matlab decoder_api runtime
        (next_key matlab decoder_api runtime runtime-IsRuntime one_pool)
        1
        new_inputs
        (view matlab decoder_api runtime one_pool))
    × ((view matlab decoder_api runtime one_pool).pools
          (next_key matlab decoder_api runtime runtime-IsRuntime one_pool)
        ≡ none)
method_new-Refines_example =
    method_new-Refines matlab decoder_api runtime runtime-IsRuntime 1 new_inputs one_pool
      one_pool-IsValid

abbrev pub callbacks : Callbacks Value Mex (Reply matlab decoder_api runtime)
callbacks =
    ("release", method_release matlab decoder_api runtime)
    ∷ ("reset_crcs", method_reset_crcs matlab decoder_api runtime)
    ∷ ("step", method_step matlab decoder_api runtime)
    ∷ ("new", method_new matlab decoder_api runtime)
    ∷ []

Reach-IsValid_example :
    IsValid matlab decoder_api runtime (left (dispatch matlab callbacks 1 new_inputs fresh))
unfolding construct create_callbacks create_callback find
Reach-IsValid_example =
    Reach-IsValid matlab decoder_api runtime runtime-IsRuntime
      (left (dispatch matlab callbacks 1 new_inputs fresh))
      (called callbacks 1 new_inputs refl (constructed 0 refl))
