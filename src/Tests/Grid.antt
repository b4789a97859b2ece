-- ===== src/Tests/Grid.antt =====
-- resource_grid.cpp on a grid that is a function, and an array of two subcarriers, two symbols and
-- two ports.
use srs_ran_matlab.Prelude.{
  ℕ, ◌+◌, ◌-◌, ◌*◌, ◌/◌, ◌<◌, ◌≡◌, ◌≢◌, ◌⊎◌, refl, inl, ◌&&◌, List, [], ◌∷◌, Option, none, some,
  ◌==◌, leb, ltb, length, get_elem?, if◌then◌else◌, arith, ap, sym,
}
use srs_ran_matlab.Mex.{ok, complex_single}
use srs_ran_matlab.Grid.{GridApi, IsGrid, stored, read_resource_grid}
use srs_ran_matlab.Grid.Layout.{read_resource_grid_lem}
use srs_ran_matlab.Tests.Values.{Value, tensor, matlab}

pub record Elements : Type 0 where
  pub ports : ℕ
  pub symbols : ℕ
  pub subc : ℕ
  pub at : ℕ → ℕ → ℕ → Option ℕ

abbrev halves : Option ℕ → Option ℕ
halves none = none
halves (some x) = some (x / 2)

abbrev put_at : Elements → ℕ → ℕ → ℕ → List ℕ → ℕ → ℕ → ℕ → Option ℕ
put_at g p l k xs q n i =
    if (q == p) && (n == l) && leb k i && ltb i (k + length xs)
    then halves (get_elem? xs (i - k))
    else g.at q n i

-- A conversion that loses precision: two neighbours become one.
abbrev pub halved : ℕ → ℕ
halved x = x / 2

abbrev pub grids : GridApi ℕ
grids = record {
  Factory = Unit;
  Grid = Elements;
  Element = ℕ;
  to_element = halved;
  create_resource_grid_factory = some tt;
  create = λ f ports symbols subc.
      some (record { ports = ports; symbols = symbols; subc = subc; at = λ p l k. some 0 });
  put = λ g p l k xs. record g { at = put_at g p l k xs };
  get_nof_ports = λ g. g.ports;
  get_nof_symbols = λ g. g.symbols;
  get_nof_subc = λ g. g.subc;
  get = λ g. g.at;
}

abbrev dims_of : Option Elements → ℕ × ℕ × ℕ
dims_of none = (0, 0, 0)
dims_of (some g) = (g.ports, g.symbols, g.subc)

put_at_same :
    (g : Elements) (p l k i : ℕ) (xs : List ℕ)
    → i < length xs
    → put_at g p l k xs p l (k + i) ≡ halves (get_elem? xs i)
put_at_same g p l k i xs h =
    let back : k + i - k ≡ i = omega arith in ground (arith, ap (λ n. halves (get_elem? xs n)) back)

put_at_other :
    (g : Elements) (p l k q n i : ℕ) (xs : List ℕ)
    → (q ≢ p) ⊎ (n ≢ l)
    → put_at g p l k xs q n i ≡ g.at q n i
put_at_other g p l k q n i xs h = ground arith

pub grids-IsGrid : IsGrid grids
grids-IsGrid = record {
  create_dims = λ f ports symbols subc g e. (
    ap (λ o. (dims_of o).0) (sym e),
    ap (λ o. (dims_of o).1) (sym e),
    ap (λ o. (dims_of o).2) (sym e),
  );
  put_dims = λ g p l k xs. (refl, refl, refl);
  get-put = λ g p l k i xs h1 h2 h3 h4. put_at_same g p l k i xs h4;
  get-put_ne = λ g p l k q n i xs h. put_at_other g p l k q n i xs h;
}

abbrev pub rx_grid : Value
rx_grid = tensor complex_single (2 ∷ 2 ∷ 2 ∷ []) (0 ∷ 1 ∷ 2 ∷ 3 ∷ 4 ∷ 5 ∷ 6 ∷ 7 ∷ [])

abbrev samples : List ℕ
samples = 0 ∷ 1 ∷ 2 ∷ 3 ∷ 4 ∷ 5 ∷ 6 ∷ 7 ∷ []

abbrev empty_grid : Elements
empty_grid = record { ports = 2; symbols = 2; subc = 2; at = λ p l k. some 0 }

read_resource_grid_lem_example :
    (h : Elements) × (read_resource_grid matlab grids rx_grid ≡ ok (some h))
    × (h.ports ≡ 2)
    × (h.symbols ≡ 2)
    × (h.subc ≡ 2)
    × ((p l k : ℕ)
        → p < 2
        → l < 2
        → k < 2
        → h.at p l k ≡ stored grids (get_elem? samples ((p * 2 + l) * 2 + k)))
read_resource_grid_lem_example =
    read_resource_grid_lem matlab grids grids-IsGrid rx_grid tt empty_grid 2 2 2 samples (inl refl)
      refl refl refl (ground arith) (ground arith) (ground arith) (ground arith) refl refl
