-- ===== src/Grid/Copy.antt =====
-- resource_grid.cpp: what the grid holds after the loops over the symbols and the ports.
use srs_ran_matlab.Prelude.{
  ℕ, zero, suc, ◌+◌, ◌-◌, ◌*◌, ◌<◌, ◌≤◌, ◌^◌, ◌≡◌, refl, ◌∙◌, ◌≢◌, ◌⊎◌, inl, inr, List, length,
  take, drop, get_elem?, length-take, length-drop, get_elem?-drop, get_elem?-take, drop-drop, ap,
  arith,
}
use srs_ran_matlab.Mex.{ok, ◌>>=◌}
use srs_ran_matlab.Span.{first-take, last-drop, sub32}
use srs_ran_matlab.Grid.{GridApi, IsGrid, stored, Reading, read_symbol, read_symbols, read_ports}

module _ {Complex : Type 0} (api : GridApi Complex) (laws : IsGrid api) where
  open api use {Grid, put, get, get_nof_ports, get_nof_symbols, get_nof_subc}

  -- The state before and after symbols of one port are read.
  abbrev pub at_view : List Complex → Grid → Reading api
  at_view view grid = record { grid_view = view; remaining_res = length view; grid = grid }

  pub record SameDims (g h : Grid) : Type 0 where
    pub ports : get_nof_ports h ≡ get_nof_ports g
    pub symbols : get_nof_symbols h ≡ get_nof_symbols g
    pub subc : get_nof_subc h ≡ get_nof_subc g

  read_symbol_lem :
      (subc port symbol : ℕ) (view : List Complex) (grid : Grid)
      → subc ≤ length view
      → length view < 2 ^ 32
      → read_symbol api subc port symbol (at_view view grid)
        ≡ ok (at_view (drop subc view) (put grid port symbol 0 (take subc view)))
  unfolding read_symbol
  read_symbol_lem subc port symbol view grid fits small =
      let left : sub32 (length view) subc ≡ length view - subc = omega arith in
      let rest : length view - (length view - subc) ≡ subc = omega arith in
      rw (
        first-take subc view fits,
        left,
        last-drop (length view - subc) view (omega arith),
        rest,
        length-drop subc view,
      )

  -- Each symbol from `i` on holds its stretch of the view; what stands before `i`, and other ports,
  -- is as it was.
  record IsRead (port i left subc : ℕ) (view : List Complex) (g h : Grid) : Type 0 where
    dims : SameDims g h
    written :
        (d k : ℕ)
        → d < left
        → k < subc
        → get h port (i + d) k ≡ stored api (get_elem? view (d * subc + k))
    kept : (p l k : ℕ) → (p ≢ port) ⊎ (l < i) → get h p l k ≡ get g p l k

  -- One more symbol in front.
  IsRead-step :
      (subc port left i : ℕ) (view : List Complex) (g h : Grid)
      → port < get_nof_ports g
      → i < get_nof_symbols g
      → subc ≤ get_nof_subc g
      → subc ≤ length view
      → IsRead port (i + 1) left subc (drop subc view) (put g port i 0 (take subc view)) h
      → IsRead port i (suc left) subc view g h
  IsRead-step subc port left i view g h p s k fits rest = record {
    dims = same;
    written = written;
    kept = λ q l n e.
        rest.kept q l n (ground arith)
        ∙ laws.get-put_ne g port i 0 q l n (take subc view) (ground arith);
  }
    where
      same : SameDims g h
      same =
          let (ports, symbols, subcs) = laws.put_dims g port i 0 (take subc view) in
          record {
            ports = rest.dims.ports ∙ ports;
            symbols = rest.dims.symbols ∙ symbols;
            subc = rest.dims.subc ∙ subcs;
          }

      taken : length (take subc view) ≡ subc
      taken = omega (arith, length-take subc view)

      written :
          (d n : ℕ)
          → d < suc left
          → n < subc
          → get h port (i + d) n ≡ stored api (get_elem? view (d * subc + n))
      written zero n _ n<subc =
          ap (λ l. get h port l n) {x = i + 0} {y = i} (omega arith)
          ∙ rest.kept port i n (inr (omega arith))
          ∙ ap (get (put g port i 0 (take subc view)) port i) {x = n} {y = 0 + n} (omega arith)
          ∙ laws.get-put g port i 0 n (take subc view) p s (omega (arith, taken))
              (omega (arith, taken))
          ∙ ap (stored api) (get_elem?-take subc n view n<subc)
          ∙ ap (λ i. stored api (get_elem? view i)) {x = n} (omega arith)
      written (suc d) n d< n<subc =
          ap (λ l. get h port l n) {x = i + suc d} {y = i + 1 + d} (omega arith)
          ∙ rest.written d n (omega arith) n<subc
          ∙ ap (stored api) (get_elem?-drop subc (d * subc + n) view)
          ∙ ap (λ i. stored api (get_elem? view i)) {x = subc + (d * subc + n)} (omega arith)

  read_symbols_lem :
      (subc port left i : ℕ) (view : List Complex) (g : Grid)
      → port < get_nof_ports g
      → i + left ≤ get_nof_symbols g
      → subc ≤ get_nof_subc g
      → left * subc ≤ length view
      → length view < 2 ^ 32
      → (h : Grid) × (read_symbols api subc port left i (at_view view g)
          ≡ ok (at_view (drop (left * subc) view) h))
        × IsRead port i left subc view g h
  unfolding read_symbols
  read_symbols_lem subc port zero i view g p s k fits small = (
    g,
    ap (λ rest. ok (at_view rest g)) {x = view} {y = drop (0 * subc) view}
        (ap (λ n. drop n view) {x = 0} (omega arith)),
    record {
      dims = record { ports = refl; symbols = refl; subc = refl };
      written = λ d n h. elim h [ ];
      kept = λ q l n h. refl;
    },
  )
  read_symbols_lem subc port (suc left) i view g p s k fits small =
      let g' = put g port i 0 (take subc view) in
      let (ports, symbols, subcs) = laws.put_dims g port i 0 (take subc view) in
      let (h, ran, read) =
        read_symbols_lem subc port left (i + 1) (drop subc view) g' (omega arith) (omega arith)
          (omega arith) (omega (arith, length-drop subc view))
          (omega (arith, length-drop subc view)) in
      (
        h,
        ap (λ r. r >>= read_symbols api subc port left (i + 1))
              (read_symbol_lem subc port i view g (omega arith) small)
            ∙ ran
            ∙ ap (λ rest. ok (at_view rest h))
                (drop-drop subc (left * subc) view
                  ∙ ap (λ n. drop n view) {x = subc + left * subc} (omega arith)),
        IsRead-step subc port left i view g h p (omega arith) k (omega arith) read,
      )

  -- Each port from `i` on holds its stretch of the view, symbol by symbol.
  pub record IsCopied (i left symbols subc : ℕ) (view : List Complex) (g h : Grid) : Type 0 where
    pub dims : SameDims g h
    pub written :
        (e d k : ℕ)
        → e < left
        → d < symbols
        → k < subc
        → get h (i + e) d k ≡ stored api (get_elem? view ((e * symbols + d) * subc + k))
    pub kept : (p l k : ℕ) → p < i → get h p l k ≡ get g p l k

  SameDims-trans : {f g h : Grid} → SameDims f g → SameDims g h → SameDims f h
  SameDims-trans a b = record {
    ports = b.ports ∙ a.ports;
    symbols = b.symbols ∙ a.symbols;
    subc = b.subc ∙ a.subc;
  }

  IsCopied-step :
      (i left symbols subc : ℕ) (view : List Complex) (f g h : Grid)
      → IsRead i 0 symbols subc view f g
      → IsCopied (i + 1) left symbols subc (drop (symbols * subc) view) g h
      → IsCopied i (suc left) symbols subc view f h
  IsCopied-step i left symbols subc view f g h one rest = record {
    dims = SameDims-trans one.dims rest.dims;
    written = written;
    kept = λ p l k e. rest.kept p l k (omega arith) ∙ one.kept p l k (inl (omega arith));
  }
    where
      written :
          (e d k : ℕ)
          → e < suc left
          → d < symbols
          → k < subc
          → get h (i + e) d k ≡ stored api (get_elem? view ((e * symbols + d) * subc + k))
      written zero d k _ d< k< =
          ap (λ p. get h p d k) {x = i + 0} {y = i} (omega arith)
          ∙ rest.kept i d k (omega arith)
          ∙ ap (λ l. get g i l k) {x = d} {y = 0 + d} (omega arith)
          ∙ one.written d k d< k<
          ∙ ap (λ i. stored api (get_elem? view i)) {x = d * subc + k} (omega arith)
      written (suc e) d k e< d< k< =
          ap (λ p. get h p d k) {x = i + suc e} {y = i + 1 + e} (omega arith)
          ∙ rest.written e d k (omega arith) d< k<
          ∙ ap (stored api) (get_elem?-drop (symbols * subc) ((e * symbols + d) * subc + k) view)
          ∙ ap (λ i. stored api (get_elem? view i))
              {x = symbols * subc + ((e * symbols + d) * subc + k)} (omega arith)

  pub read_ports_lem :
      (subc symbols left i : ℕ) (view : List Complex) (g : Grid)
      → i + left ≤ get_nof_ports g
      → symbols ≤ get_nof_symbols g
      → subc ≤ get_nof_subc g
      → left * (symbols * subc) ≤ length view
      → length view < 2 ^ 32
      → (r : Reading api) × (read_ports api subc symbols left i (at_view view g) ≡ ok r)
        × IsCopied i left symbols subc view g r.grid
  unfolding read_ports
  read_ports_lem subc symbols zero i view g p s k fits small = (
    at_view view g,
    refl,
    record {
      dims = record { ports = refl; symbols = refl; subc = refl };
      written = λ e d n h. elim h [ ];
      kept = λ q l n h. refl;
    },
  )
  read_ports_lem subc symbols (suc left) i view g p s k fits small =
      let (g', ran, one) =
        read_symbols_lem subc i symbols 0 view g (omega arith) (omega arith) k (omega arith)
          small in
      let (r, rest, copied) =
        read_ports_lem subc symbols left (i + 1) (drop (symbols * subc) view) g'
          (omega (arith, one.dims.ports)) (omega (arith, one.dims.symbols))
          (omega (arith, one.dims.subc)) (omega (arith, length-drop (symbols * subc) view))
          (omega (arith, length-drop (symbols * subc) view)) in
      (
        r,
        ap (λ x. x >>= read_ports api subc symbols left (i + 1)) ran ∙ rest,
        IsCopied-step i left symbols subc view g g' r.grid one copied,
      )
