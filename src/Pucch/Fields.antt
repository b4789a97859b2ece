-- ===== src/Pucch/Fields.antt =====
-- pucch_processor_mex.cpp: which field of the MATLAB structure each member of the common configuration
-- comes from.
use srs_ran_matlab.Prelude.{
  ℕ, ◌*◌, ◌^◌, ◌≡◌, refl, sym, ap, ◌∙◌, subst, ◌⊎◌, inl, inr, true, false, List, Option, none, some,
  String, length, Bool-cases,
}
use srs_ran_matlab.Mex.{Matlab, ok, unsigned_field, text_field, >>=-eq-ok, ok-injective}
use srs_ran_matlab.Convert.{
  CyclicPrefix, matlab_to_srs_cyclic_prefix, matlab_to_srs_subcarrier_spacing, bg1, type1,
  unrestricted, qpsk,
}
use srs_ran_matlab.Convert.Domains.{numerology, cyclic_prefix_name, names_iff, numbers_iff}
use srs_ran_matlab.Pucch.Config.{SlotPoint, CommonConfiguration}
use srs_ran_matlab.Pucch.Populate.{second_hop, populate_carrier, populate_common}
use srs_ran_matlab.Pucch.Ports.{IsCounted, IsCounted-ports, ports-IsCounted}

module _ (m : Matlab) (in_cfg : m.Array) where
  -- The field holds the number.
  abbrev pub Holds : String → ℕ → Type 0
  Holds name n = unsigned_field m in_cfg name ≡ ok n

  -- An empty field stands for no second hop.
  pub record IsHop (second_hop_prb : Option ℕ) : Type 0 where
    pub hop : m.Array
    pub has_hop : m.field in_cfg 0 "SecondHopStartPRB" ≡ ok hop
    pub hops :
        ((m.is_empty hop ≡ true) × (second_hop_prb ≡ none))
        ⊎ ((m.is_empty hop ≡ false)
            × (prb : ℕ) × (second_hop_prb ≡ some prb)
            × Holds "SecondHopStartPRB" prb)

  pub record IsCarrier (carrier : SlotPoint × CyclicPrefix × List ℕ × ℕ × ℕ) : Type 0 where
    pub spacing : Holds "SubcarrierSpacing" (15 * 2 ^ numerology carrier.0.scs)
    pub count : Holds "NSlot" carrier.0.count
    pub prefix : text_field m in_cfg "CP" ≡ ok (cyclic_prefix_name carrier.1)
    pub nof_ports : Holds "NRxPorts" (length carrier.2)
    pub counted : IsCounted carrier.2
    pub bwp_size : Holds "NSizeBWP" carrier.3
    pub bwp_start : Holds "NStartBWP" carrier.4

  -- The members are those of the fields: the spacing is the number of kHz, the prefix the text, and the
  -- ports are counted from 0 up to the number of ports.
  pub record IsCommon (cfg : CommonConfiguration) : Type 0 where
    pub carrier : IsCarrier (cfg.slot, cfg.cp, cfg.ports, cfg.bwp_size_rb, cfg.bwp_start_rb)
    pub start : Holds "StartPRB" cfg.starting_prb
    pub hop : IsHop cfg.second_hop_prb
    pub symbol : Holds "StartSymbolIndex" cfg.start_symbol_index
    pub symbols : Holds "NumOFDMSymbols" cfg.nof_symbols

  populate_carrier-IsCarrier :
      (carrier : SlotPoint × CyclicPrefix × List ℕ × ℕ × ℕ)
      → populate_carrier m in_cfg ≡ ok carrier
      → IsCarrier carrier
  unfolding populate_carrier
  populate_carrier-IsCarrier carrier h =
      let (khz, has_khz, h1) = >>=-eq-ok (unsigned_field m in_cfg "SubcarrierSpacing") _ h in
      let (count, has_count, h2) = >>=-eq-ok (unsigned_field m in_cfg "NSlot") _ h1 in
      let (scs, converted, h3) = >>=-eq-ok (matlab_to_srs_subcarrier_spacing khz) _ h2 in
      let (in_cp, has_cp, h4) = >>=-eq-ok (text_field m in_cfg "CP") _ h3 in
      let (cp, named, h5) = >>=-eq-ok (matlab_to_srs_cyclic_prefix in_cp) _ h4 in
      let (n, has_n, h6) = >>=-eq-ok (unsigned_field m in_cfg "NRxPorts") _ h5 in
      let (size, has_size, h7) = >>=-eq-ok (unsigned_field m in_cfg "NSizeBWP") _ h6 in
      let (start, has_start, h8) = >>=-eq-ok (unsigned_field m in_cfg "NStartBWP") _ h7 in
      let (many, counted) = IsCounted-ports n _ refl in
      subst IsCarrier (ok-injective _ carrier h8) (record {
        spacing = has_khz ∙ ap ok ((numbers_iff khz scs bg1 type1).0.0 converted);
        count = has_count;
        prefix = has_cp ∙ ap ok ((names_iff in_cp qpsk cp unrestricted).2.0 named);
        nof_ports = has_n ∙ ap ok many;
        counted = counted;
        bwp_size = has_size;
        bwp_start = has_start;
      })

  IsCarrier-populate_carrier :
      (slot : SlotPoint) (cp : CyclicPrefix) (ports : List ℕ) (bwp_size_rb bwp_start_rb : ℕ)
      → IsCarrier (slot, cp, ports, bwp_size_rb, bwp_start_rb)
      → populate_carrier m in_cfg ≡ ok (slot, cp, ports, bwp_size_rb, bwp_start_rb)
  unfolding populate_carrier
  IsCarrier-populate_carrier slot cp ports bwp_size_rb bwp_start_rb c =
      rw
        (
          c.spacing,
          c.count,
          (numbers_iff (15 * 2 ^ numerology slot.scs) slot.scs bg1 type1).0.1 refl,
          c.prefix,
          (names_iff (cyclic_prefix_name cp) qpsk cp unrestricted).2.1 refl,
          c.nof_ports,
          c.bwp_size,
          c.bwp_start,
          ports-IsCounted ports c.counted,
        )
        refl

  second_hop-IsHop :
      (hop : m.Array) (second_hop_prb : Option ℕ)
      → m.field in_cfg 0 "SecondHopStartPRB" ≡ ok hop
      → second_hop m (m.is_empty hop) in_cfg ≡ ok second_hop_prb
      → IsHop second_hop_prb
  unfolding second_hop
  second_hop-IsHop hop second_hop_prb has_hop h = elim (Bool-cases (m.is_empty hop)) [
    | inl empty ↦
        let same : second_hop m (m.is_empty hop) in_cfg ≡ ok none =
          ap (λ b. second_hop m b in_cfg) empty in
        record {
          hop = hop;
          has_hop = has_hop;
          hops = inl (empty, sym (ok-injective none second_hop_prb (sym same ∙ h)));
        }
    | inr full ↦
        let same = ap (λ b. second_hop m b in_cfg) full in
        let (prb, has_prb, made) =
          >>=-eq-ok (unsigned_field m in_cfg "SecondHopStartPRB") _ (sym same ∙ h) in
        record {
          hop = hop;
          has_hop = has_hop;
          hops = inr (full, prb, sym (ok-injective (some prb) second_hop_prb made), has_prb);
        }
  ]

  IsHop-second_hop :
      (second_hop_prb : Option ℕ) (h : IsHop second_hop_prb)
      → second_hop m (m.is_empty h.hop) in_cfg ≡ ok second_hop_prb
  unfolding second_hop
  IsHop-second_hop second_hop_prb h = elim h.hops [
    | inl (empty, none_e) ↦ rw empty (ap ok (sym none_e))
    | inr (full, prb, some_e, has_prb) ↦ rw (full, has_prb) (ap ok (sym some_e))
  ]

  -- The common part of a configuration, from its three places in the populate functions.
  pub populate_common-IsCommon :
      (carrier : SlotPoint × CyclicPrefix × List ℕ × ℕ × ℕ) (starting_prb : ℕ)
      (cfg : CommonConfiguration)
      → populate_carrier m in_cfg ≡ ok carrier
      → Holds "StartPRB" starting_prb
      → populate_common m carrier starting_prb in_cfg ≡ ok cfg
      → IsCommon cfg
  unfolding populate_common
  populate_common-IsCommon (slot, cp, ports, bwp_size_rb, bwp_start_rb) starting_prb cfg populated
        start h =
      let (hop, has_hop, h1) = >>=-eq-ok (m.field in_cfg 0 "SecondHopStartPRB") _ h in
      let (second, hopped, h2) = >>=-eq-ok (second_hop m (m.is_empty hop) in_cfg) _ h1 in
      let (symbol, has_symbol, h3) = >>=-eq-ok (unsigned_field m in_cfg "StartSymbolIndex") _ h2 in
      let (symbols, has_symbols, h4) = >>=-eq-ok (unsigned_field m in_cfg "NumOFDMSymbols") _ h3 in
      subst IsCommon (ok-injective _ cfg h4) (record {
        carrier = populate_carrier-IsCarrier (slot, cp, ports, bwp_size_rb, bwp_start_rb) populated;
        start = start;
        hop = second_hop-IsHop hop second has_hop hopped;
        symbol = has_symbol;
        symbols = has_symbols;
      })

  abbrev carrier_of : CommonConfiguration → SlotPoint × CyclicPrefix × List ℕ × ℕ × ℕ
  carrier_of cfg = (cfg.slot, cfg.cp, cfg.ports, cfg.bwp_size_rb, cfg.bwp_start_rb)

  pub IsCommon-populate_carrier :
      (cfg : CommonConfiguration) → IsCommon cfg → populate_carrier m in_cfg ≡ ok (carrier_of cfg)
  IsCommon-populate_carrier cfg c =
      IsCarrier-populate_carrier cfg.slot cfg.cp cfg.ports cfg.bwp_size_rb cfg.bwp_start_rb
        c.carrier

  pub IsCommon-populate_common :
      (cfg : CommonConfiguration)
      → IsCommon cfg
      → populate_common m (carrier_of cfg) cfg.starting_prb in_cfg ≡ ok cfg
  unfolding populate_common
  IsCommon-populate_common cfg c =
      rw (c.hop.has_hop, IsHop-second_hop cfg.second_hop_prb c.hop, c.symbol, c.symbols) refl
