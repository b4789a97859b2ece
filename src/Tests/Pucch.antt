-- ===== src/Tests/Pucch.antt =====
-- pucch_processor_mex.cpp with a batch that is a list, and a processor that finds what it is asked
-- for.
use srs_ran_matlab.Prelude.{
  ℕ, ◌+◌, ◌≡◌, ◌↔◌, refl, Bool, true, false, ◌&&◌, ◌||◌, List, [], ◌∷◌, none, some, String, ◌==◌,
  length, map, arith,
}
use srs_ran_matlab.Mex.{ok, err, assertion}
use srs_ran_matlab.Convert.{
  normal, khz15, matlab_to_srs_subcarrier_spacing, matlab_to_srs_cyclic_prefix,
}
use srs_ran_matlab.Pucch.Config.{Format1Configuration}
use srs_ran_matlab.Pucch.Api.{PucchApi, IsBatch}
use srs_ran_matlab.Pucch.Message.{fill_message_fields, fill_message_fields_lem}
use srs_ran_matlab.Pucch.Processor.{
  Entry, multiplexed, insert_entries, insert_entry, process_multiplexed, read_entry, field_at,
  check_validation, with_entry, output_rows, row_of, payloads, call_processor, multiplexed_list,
  process_list, mux_is_empty,
}
use srs_ran_matlab.Pucch.Entries.{has, read_entries, IsAcceptable, insert_all}
use srs_ran_matlab.Pucch.Multiplex.{insert_entries_iff}
use srs_ran_matlab.Pucch.Rows.{entry_row, IsMultiplexed, process_multiplexed_iff}
use srs_ran_matlab.Pucch.Step.{method_step, check_step_outputs_inputs, step_with_grid, mux_of}
use srs_ran_matlab.Pucch.Served.{IsServed, method_step-IsServed}
use srs_ran_matlab.Pucch.Populate.{
  populate_f1_configuration, populate_carrier, populate_common, push_ports, second_hop,
}
use srs_ran_matlab.Span.{first, last}
use srs_ran_matlab.Grid.{
  read_resource_grid, read_into, read_ports, read_symbols, read_symbol, create_resource_grid,
  create_with, nof_grid_ports,
}
use srs_ran_matlab.Tests.Values.{
  Value, Leaf, chars, structs, leaf_num, leaf_text, leaf_empty, matlab,
}
use srs_ran_matlab.Tests.Grid.{Elements, grids, rx_grid}

abbrev Batch : Type 0
Batch = List (ℕ × ℕ)

abbrev contains : Batch → ℕ → ℕ → Bool
contains [] i o = false
contains ((j, p) ∷ batch) i o = (j == i) && (p == o) || contains batch i o

abbrev pub pucch_api : PucchApi Elements
pucch_api = record {
  ProcessorResult = ℕ;
  is_status_valid = λ r. true;
  get_harq_ack_bits = λ r. r ∷ [];
  get_sr_bits = λ r. [];
  get_csi_part1_bits = λ r. [];
  get_csi_part2_bits = λ r. [];
  is_valid0 = λ cfg. none;
  is_valid1 = λ cfg. none;
  is_valid2 = λ cfg. none;
  is_valid3 = λ cfg. none;
  is_valid4 = λ cfg. none;
  process0 = λ grid cfg. 0;
  process2 = λ grid cfg. 0;
  process3 = λ grid cfg. 0;
  process4 = λ grid cfg. 0;
  Batch = Batch;
  batch_of = λ cfg. (cfg.initial_cyclic_shift, cfg.time_domain_occ) ∷ [];
  clear = λ batch. [];
  contains = contains;
  insert = λ batch i o n. (i, o) ∷ batch;
  BatchResults = Batch;
  process1 = λ grid batch. batch;
  results_size = length;
  results_contain = contains;
  results_get = λ results i o. i + o;
  results_get_missing = λ results i o. err (assertion "get");
}

pucch_api-IsBatch : IsBatch pucch_api
pucch_api-IsBatch = record { contains-clear = λ b i o. refl; contains-insert = λ b i o n j p. refl }

abbrev entry_of : ℕ → ℕ → ℕ → List (String × Leaf)
entry_of ics occi bits =
    ("InitialCyclicShift", leaf_num ics) ∷ ("OCCI", leaf_num occi) ∷ ("NumBits", leaf_num bits) ∷ []

abbrev mux : Value
mux = structs (entry_of 0 0 1 ∷ entry_of 3 1 2 ∷ [])

abbrev entries : List Entry
entries =
    record { ics = 0; occi = 0; nof_harq_ack_bits = 1 }
    ∷ record { ics = 3; occi = 1; nof_harq_ack_bits = 2 }
    ∷ []

abbrev pub config : Value
config = structs (
    (("Format", leaf_num 1)
      ∷ ("SubcarrierSpacing", leaf_num 15)
      ∷ ("NSlot", leaf_num 0)
      ∷ ("CP", leaf_text "normal")
      ∷ ("NRxPorts", leaf_num 2)
      ∷ ("NSizeBWP", leaf_num 52)
      ∷ ("NStartBWP", leaf_num 0)
      ∷ ("StartPRB", leaf_num 3)
      ∷ ("SecondHopStartPRB", leaf_empty)
      ∷ ("StartSymbolIndex", leaf_num 0)
      ∷ ("NumOFDMSymbols", leaf_num 14)
      ∷ ("NID", leaf_num 1)
      ∷ ("NumHARQAck", leaf_num 1)
      ∷ ("InitialCyclicShift", leaf_num 0)
      ∷ ("OCCI", leaf_num 0)
      ∷ [])
    ∷ [])

abbrev common_cfg : Format1Configuration
common_cfg = record {
  common = record {
    slot = record { scs = khz15; count = 0 };
    cp = normal;
    ports = 0 ∷ 1 ∷ [];
    bwp_size_rb = 52;
    bwp_start_rb = 0;
    starting_prb = 3;
    second_hop_prb = none;
    start_symbol_index = 0;
    nof_symbols = 14;
  };
  n_id = 1;
  nof_harq_ack = 1;
  initial_cyclic_shift = 0;
  time_domain_occ = 0;
}

fill_message_fields_lem_example : fill_message_fields (1 ∷ 0 ∷ 1 ∷ []) ≡ 1 ∷ 0 ∷ 1 ∷ []
fill_message_fields_lem_example = fill_message_fields_lem (1 ∷ 0 ∷ 1 ∷ []) (ground arith)

abbrev both : Batch
both = (3, 1) ∷ (0, 0) ∷ []

insert_entries_iff_example :
    ((insert_entries matlab pucch_api mux common_cfg 2 0 [] ≡ ok both)
      ↔ (IsAcceptable pucch_api common_cfg entries × (insert_all pucch_api entries [] ≡ both)))
    × ((j p : ℕ) → contains (insert_all pucch_api entries []) j p ≡ has entries j p)
unfolding read_entries read_entry field_at
insert_entries_iff_example =
    insert_entries_iff matlab pucch_api pucch_api-IsBatch mux common_cfg 2 [] both entries refl

abbrev pub some_grid : Elements
some_grid = record { ports = 2; symbols = 2; subc = 2; at = λ p l k. some 0 }

process_multiplexed_iff_example :
    (process_multiplexed matlab pucch_api some_grid config mux 2
      ≡ ok (multiplexed (map (entry_row pucch_api both) entries)))
    ↔ IsMultiplexed matlab pucch_api some_grid config 2 entries
        (multiplexed (map (entry_row pucch_api both) entries))
unfolding read_entries read_entry field_at
process_multiplexed_iff_example =
    process_multiplexed_iff matlab pucch_api pucch_api-IsBatch some_grid config mux 2 entries
      (multiplexed (map (entry_row pucch_api both) entries)) refl

abbrev step_inputs : List Value
step_inputs = chars "step" ∷ rx_grid ∷ config ∷ mux ∷ []

method_step-IsServed_example :
    (method_step matlab grids pucch_api 1 step_inputs
      ≡ ok (multiplexed (map (entry_row pucch_api both) entries)))
    ↔ (◌≡◌ {A = ℕ} 1 1
        × IsServed matlab grids pucch_api step_inputs
            (multiplexed (map (entry_row pucch_api both) entries)))
method_step-IsServed_example =
    method_step-IsServed matlab grids pucch_api 1 step_inputs
      (multiplexed (map (entry_row pucch_api both) entries))

-- The step that the witness speaks of returns.
step_returns :
    method_step matlab grids pucch_api 1 step_inputs
    ≡ ok (multiplexed (map (entry_row pucch_api both) entries))
unfolding method_step check_step_outputs_inputs step_with_grid mux_of mux_is_empty call_processor
    multiplexed_list process_list read_entry field_at process_multiplexed insert_entries
    insert_entry check_validation with_entry output_rows row_of entry_row payloads
    populate_f1_configuration populate_carrier populate_common push_ports second_hop
    matlab_to_srs_subcarrier_spacing matlab_to_srs_cyclic_prefix read_resource_grid read_into
    read_ports read_symbols read_symbol first last create_resource_grid create_with nof_grid_ports
    fill_message_fields
step_returns = refl
