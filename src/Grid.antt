-- ===== src/Grid.antt =====
-- resource_grid.cpp and factory_functions.h: a MATLAB array of two or three dimensions is copied
-- into a resource grid, one OFDM symbol of one port after the other.
pub mod Copy
pub mod Layout
use srs_ran_matlab.Prelude.{
  ℕ, zero, suc, ◌+◌, ◌<◌, ◌≤◌, ◌≡◌, ◌≢◌, ◌⊎◌, Bool, List, [], ◌∷◌, Option, none, some, ◌==◌, length,
  get_elem?, if◌then◌else◌,
}
use srs_ran_matlab.Mex.{Matlab, Result, ok, err, exception, ◌>>=◌}
use srs_ran_matlab.Span.{first, last, u32, sub32}

-- srsRAN's resource grid and its factory.
pub record GridApi (Complex : Type 0) : Type 1 where
  pub Factory : Type 0
  pub Grid : Type 0
  -- what the grid keeps of a sample, which is in a lower precision
  pub Element : Type 0
  pub to_element : Complex → Element
  pub create_resource_grid_factory : Option Factory
  -- ports, symbols, subcarriers
  pub create : Factory → ℕ → ℕ → ℕ → Option Grid
  -- `get_writer().put(port, symbol, k_init, symbols)`
  pub put : Grid → ℕ → ℕ → ℕ → List Complex → Grid
  pub get_nof_ports : Grid → ℕ
  pub get_nof_symbols : Grid → ℕ
  pub get_nof_subc : Grid → ℕ
  -- the resource element of a port, a symbol and a subcarrier
  pub get : Grid → ℕ → ℕ → ℕ → Option Element

abbrev pub stored : {Complex : Type 0} (api : GridApi Complex) → Option Complex → Option api.Element
stored api none = none
stored api (some x) = some (api.to_element x)

-- What srsRAN documents of it.
pub record IsGrid {Complex : Type 0} (api : GridApi Complex) : Type 0 where
  pub create_dims :
      (f : api.Factory) (ports symbols subc : ℕ) (g : api.Grid)
      → api.create f ports symbols subc ≡ some g
      → (api.get_nof_ports g ≡ ports)
        × (api.get_nof_symbols g ≡ symbols)
        × (api.get_nof_subc g ≡ subc)
  pub put_dims :
      (g : api.Grid) (p l k : ℕ) (xs : List Complex)
      → (api.get_nof_ports (api.put g p l k xs) ≡ api.get_nof_ports g)
        × (api.get_nof_symbols (api.put g p l k xs) ≡ api.get_nof_symbols g)
        × (api.get_nof_subc (api.put g p l k xs) ≡ api.get_nof_subc g)
  pub get-put :
      (g : api.Grid) (p l k i : ℕ) (xs : List Complex)
      → p < api.get_nof_ports g
      → l < api.get_nof_symbols g
      → k + length xs ≤ api.get_nof_subc g
      → i < length xs
      → api.get (api.put g p l k xs) p l (k + i) ≡ stored api (get_elem? xs i)
  pub get-put_ne :
      (g : api.Grid) (p l k q n i : ℕ) (xs : List Complex)
      → (q ≢ p) ⊎ (n ≢ l)
      → api.get (api.put g p l k xs) q n i ≡ api.get g q n i

module _ {Complex : Type 0} (api : GridApi Complex) where
  open api use {Factory, Grid, put, create}

  -- `rg_factory`, which is null if it could not be made
  unfoldable pub create_with : Option Factory → ℕ → ℕ → ℕ → Option Grid
  create_with none nof_subc nof_symbols nof_ports = none
  create_with (some rg_factory) nof_subc nof_symbols nof_ports =
      create rg_factory nof_ports nof_symbols nof_subc

  unfoldable pub create_resource_grid : ℕ → ℕ → ℕ → Option Grid
  unfolding create_with
  create_resource_grid = create_with api.create_resource_grid_factory

  -- The locals of the loops: `grid_view`, `remaining_res` and the grid.
  pub record Reading : Type 0 where
    pub grid_view : List Complex
    pub remaining_res : ℕ
    pub grid : Grid

  unfoldable pub read_symbol : ℕ → ℕ → ℕ → Reading → Result Reading
  read_symbol nof_subcarriers i_port i_symbol r = do
    symbol_view ← first nof_subcarriers r.grid_view
    let remaining_res = sub32 r.remaining_res nof_subcarriers
    grid_view ← last remaining_res r.grid_view
    ok (record {
      grid_view = grid_view;
      remaining_res = remaining_res;
      grid = put r.grid i_port i_symbol 0 symbol_view;
    })

  -- The loop over `i_symbol`, by the rounds that are left.
  unfoldable pub read_symbols : ℕ → ℕ → ℕ → ℕ → Reading → Result Reading
  read_symbols nof_subcarriers i_port zero i_symbol r = ok r
  read_symbols nof_subcarriers i_port (suc left) i_symbol r =
      read_symbol nof_subcarriers i_port i_symbol r
      >>= read_symbols nof_subcarriers i_port left (i_symbol + 1)

  -- The loop over `i_port`.
  unfoldable pub read_ports : ℕ → ℕ → ℕ → ℕ → Reading → Result Reading
  read_ports nof_subcarriers nof_symbols zero i_port r = ok r
  read_ports nof_subcarriers nof_symbols (suc left) i_port r =
      read_symbols nof_subcarriers i_port nof_symbols 0 r
      >>= read_ports nof_subcarriers nof_symbols left (i_port + 1)

  -- `none` is the null pointer that is returned if there is no grid.
  unfoldable pub read_into : ℕ → ℕ → ℕ → ℕ → List Complex → Option Grid → Result (Option Grid)
  read_into nof_subcarriers nof_symbols nof_rx_ports nof_elements view none = ok none
  read_into nof_subcarriers nof_symbols nof_rx_ports nof_elements view (some grid) = do
    r ←
        read_ports nof_subcarriers nof_symbols nof_rx_ports 0
          (record { grid_view = view; remaining_res = u32 nof_elements; grid = grid })
    ok (some r.grid)

-- `grid_dims[i]`
abbrev pub dim : List ℕ → ℕ → Result ℕ
dim dims i = elim (get_elem? dims i) [ none ↦ err exception | some n ↦ ok n ]

-- The third dimension counts only where there are three.
unfoldable pub nof_grid_ports : List ℕ → ℕ
nof_grid_ports (a ∷ b ∷ c ∷ []) = u32 c
nof_grid_ports dims = 1

module _ (m : Matlab) (api : GridApi m.Complex) where
  unfoldable pub read_resource_grid : m.Array → Result (Option api.Grid)
  unfolding read_into
  read_resource_grid in_grid = do
    let dims = m.get_dimensions in_grid
    nof_subcarriers ← dim dims 0
    nof_symbols ← dim dims 1
    view ← m.complex_elements in_grid
    read_into api (u32 nof_subcarriers) (u32 nof_symbols) (nof_grid_ports dims)
        (m.get_number_of_elements in_grid) view
        (create_resource_grid api (u32 nof_subcarriers) (u32 nof_symbols) (nof_grid_ports dims))
