-- ===== src/Grid/Layout.antt =====
-- resource_grid.cpp: where the copy puts each element of the array.
use srs_ran_matlab.Prelude.{
  ℕ, ◌+◌, ◌*◌, ◌<◌, ◌^◌, ◌≡◌, ◌∙◌, ◌⊎◌, inl, inr, List, [], ◌∷◌, some, length, get_elem?, ap, arith,
}
use srs_ran_matlab.Mex.{Matlab, ok, ◌>>=◌}
use srs_ran_matlab.Span.{u32}
use srs_ran_matlab.Grid.{
  GridApi, IsGrid, stored, create_with, create_resource_grid, read_ports, nof_grid_ports,
  read_resource_grid,
}
use srs_ran_matlab.Grid.Copy.{at_view, read_ports_lem}

-- `dims` has the rows, columns and pages of an array: the number of pages is 1 where it has two
-- dimensions.
abbrev pub HasDims : List ℕ → ℕ → ℕ → ℕ → Type 0
HasDims dims subc symbols ports =
    (dims ≡ subc ∷ symbols ∷ ports ∷ []) ⊎ ((dims ≡ subc ∷ symbols ∷ []) × (ports ≡ 1))

module _ (m : Matlab) (api : GridApi m.Complex) (laws : IsGrid api) where
  u32_small : (n : ℕ) → n < 2 ^ 32 → u32 n ≡ n
  u32_small n h = omega arith

  created_lem :
      (f : api.Factory) (g : api.Grid) (subc symbols ports : ℕ)
      → api.create_resource_grid_factory ≡ some f
      → api.create f ports symbols subc ≡ some g
      → create_resource_grid api subc symbols ports ≡ some g
  unfolding create_resource_grid
  created_lem f g subc symbols ports made created =
      ap (λ factory. create_with api factory subc symbols ports) made ∙ created

  -- The call down to its loops.
  read_equation :
      (a : m.Array) (f : api.Factory) (g : api.Grid) (subc symbols ports : ℕ)
      (view : List m.Complex)
      → HasDims (m.get_dimensions a) subc symbols ports
      → m.complex_elements a ≡ ok view
      → m.get_number_of_elements a ≡ length view
      → subc < 2 ^ 32
      → symbols < 2 ^ 32
      → ports < 2 ^ 32
      → length view < 2 ^ 32
      → api.create_resource_grid_factory ≡ some f
      → api.create f ports symbols subc ≡ some g
      → read_resource_grid m api a
        ≡ (read_ports api subc symbols ports 0 (at_view api laws view g) >>= λ r. ok (some r.grid))
  unfolding read_resource_grid nof_grid_ports
  read_equation a f g subc symbols ports view (inl d) e count s1 s2 s3 s4 made created =
      rw (d, e)
        (rw
          (
            u32_small subc s1,
            u32_small symbols s2,
            u32_small ports s3,
            created_lem f g subc symbols ports made created,
          )
          (rw (count, u32_small (length view) s4)))
  read_equation a f g subc symbols ports view (inr (d, one)) e count s1 s2 s3 s4 made created =
      rw (d, e, one)
        (rw
          (
            u32_small subc s1,
            u32_small symbols s2,
            created_lem f g subc symbols 1 made (rw one at created),
          )
          (rw (count, u32_small (length view) s4)))

  -- A two- or three-dimensional array with as many elements as its dimensions say is read into a grid
  -- with those dimensions, in which the element of a subcarrier, symbol and port is what the grid keeps,
  -- in its own precision, of the one that the array holds at that row, column and page; no span is cut
  -- past its end. It assumes that the grid can be created and that the sizes fit an `unsigned`.
  pub read_resource_grid_lem :
      (a : m.Array) (f : api.Factory) (g : api.Grid) (subc symbols ports : ℕ)
      (view : List m.Complex)
      → HasDims (m.get_dimensions a) subc symbols ports
      → m.complex_elements a ≡ ok view
      → length view ≡ ports * (symbols * subc)
      → m.get_number_of_elements a ≡ length view
      → subc < 2 ^ 32
      → symbols < 2 ^ 32
      → ports < 2 ^ 32
      → length view < 2 ^ 32
      → api.create_resource_grid_factory ≡ some f
      → api.create f ports symbols subc ≡ some g
      → (h : api.Grid) × (read_resource_grid m api a ≡ ok (some h))
        × (api.get_nof_ports h ≡ ports)
        × (api.get_nof_symbols h ≡ symbols)
        × (api.get_nof_subc h ≡ subc)
        × ((p l k : ℕ)
            → p < ports
            → l < symbols
            → k < subc
            → api.get h p l k ≡ stored api (get_elem? view ((p * symbols + l) * subc + k)))
  unfolding read_resource_grid
  read_resource_grid_lem a f g subc symbols ports view dims e len count s1 s2 s3 s4 made created =
      let (ports_g, symbols_g, subc_g) = laws.create_dims f ports symbols subc g created in
      let (r, ran, copied) =
        read_ports_lem api laws subc symbols ports 0 view g (omega arith) (omega arith)
          (omega arith) (omega arith) s4 in
      (
        r.grid,
        read_equation a f g subc symbols ports view dims e count s1 s2 s3 s4 made created
            ∙ ap (λ x. x >>= λ r. ok (some r.grid)) ran,
        copied.dims.ports ∙ ports_g,
        copied.dims.symbols ∙ symbols_g,
        copied.dims.subc ∙ subc_g,
        λ p l k hp hl hk.
            ap (λ q. api.get r.grid q l k) {x = p} {y = 0 + p} (omega arith)
            ∙ copied.written p l k hp hl hk,
      )
