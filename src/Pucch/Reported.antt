-- ===== src/Pucch/Reported.antt =====
-- pucch_processor_mex.cpp: the message of a result, field by field.
use srs_ran_matlab.Prelude.{◌≡◌, refl}
use srs_ran_matlab.Pucch.Api.{PucchApi}
use srs_ran_matlab.Pucch.Message.{bits_of, fill_message_fields-bits_of}
use srs_ran_matlab.Pucch.Processor.{Payloads, payloads}

module _ {Grid : Type 0} (api : PucchApi Grid) where
  -- The bits of each of the message's fields are returned under the name of this field.
  abbrev pub reported : api.ProcessorResult → Payloads
  reported result = record {
    is_valid = api.is_status_valid result;
    harq_ack_payload = bits_of (api.get_harq_ack_bits result);
    sr_payload = bits_of (api.get_sr_bits result);
    csi1_payload = bits_of (api.get_csi_part1_bits result);
    csi2_payload = bits_of (api.get_csi_part2_bits result);
  }

  pub payloads-reported : (result : api.ProcessorResult) → payloads api result ≡ reported result
  unfolding payloads
  payloads-reported result =
      rw
        (
          fill_message_fields-bits_of (api.get_harq_ack_bits result),
          fill_message_fields-bits_of (api.get_sr_bits result),
          fill_message_fields-bits_of (api.get_csi_part1_bits result),
          fill_message_fields-bits_of (api.get_csi_part2_bits result),
        )
        refl
