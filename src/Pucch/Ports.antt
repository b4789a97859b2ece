-- ===== src/Pucch/Ports.antt =====
-- pucch_processor_mex.cpp: the ports of the configurations, which are counted from 0.
use srs_ran_matlab.Prelude.{
  ℕ, zero, suc, ◌+◌, ◌<◌, ◌≡◌, refl, sym, ap, ◌∙◌, subst, List, [], ◌∷◌, ◌++◌, some, length,
  get_elem?, length-append, arith, inl, inr, ◌⊎◌,
}
use srs_ran_matlab.Pucch.Populate.{push_ports}

-- Each position holds its own number.
abbrev pub IsCounted : List ℕ → Type 0
IsCounted ports = (k : ℕ) → k < length ports → get_elem? ports k ≡ some k

get_elem?-before :
    (ports rest : List ℕ) (k : ℕ)
    → k < length ports
    → get_elem? (ports ++ rest) k ≡ get_elem? ports k
get_elem?-before [] rest k h = ground arith
get_elem?-before (q ∷ ports) rest zero h = refl
get_elem?-before (q ∷ ports) rest (suc k) h = get_elem?-before ports rest k (omega arith)

get_elem?-end : (ports : List ℕ) (p : ℕ) → get_elem? (ports ++ (p ∷ [])) (length ports) ≡ some p
get_elem?-end [] p = refl
get_elem?-end (q ∷ ports) p = get_elem?-end ports p

le_or_eq : (k n : ℕ) → k < n + 1 → (k < n) ⊎ (k ≡ n)
le_or_eq k n h = ground arith

IsCounted-snoc : (ports : List ℕ) → IsCounted ports → IsCounted (ports ++ (length ports ∷ []))
IsCounted-snoc ports counted k h =
    elim (le_or_eq k (length ports) (omega (arith, length-append ports (length ports ∷ [])))) [
      | inl before ↦ get_elem?-before ports (length ports ∷ []) k before ∙ counted k before
      | inr same ↦
          subst (λ j. get_elem? (ports ++ (length ports ∷ [])) j ≡ some j) (sym same)
            (get_elem?-end ports (length ports))
    ]

push_ports_lem :
    (left : ℕ) (ports : List ℕ)
    → IsCounted ports
    → (length (push_ports left (length ports) ports) ≡ length ports + left)
      × IsCounted (push_ports left (length ports) ports)
unfolding push_ports
push_ports_lem zero ports counted = (omega arith, counted)
push_ports_lem (suc left) ports counted =
    let more = ports ++ (length ports ∷ []) in
    let size : length more ≡ length ports + 1 =
      omega (arith, length-append ports (length ports ∷ [])) in
    let rest = push_ports_lem left more (IsCounted-snoc ports counted) in
    let same : push_ports left (length ports + 1) more ≡ push_ports left (length more) more =
      ap (λ n. push_ports left n more) (sym size) in
    (ap length same ∙ rest.0 ∙ omega (arith, size), subst IsCounted (sym same) rest.1)

pushed : (n : ℕ) → (length (push_ports n 0 []) ≡ n) × IsCounted (push_ports n 0 [])
pushed n =
    let (size, counted) = push_ports_lem n [] (λ k h. ground arith) in
    (omega (arith, size), counted)

-- The ports that the loop makes are as many as it has rounds.
pub IsCounted-ports :
    (n : ℕ) (ports : List ℕ) → push_ports n 0 [] ≡ ports → (n ≡ length ports) × IsCounted ports
IsCounted-ports n ports same =
    let (size, counted) = pushed n in (sym size ∙ ap length same, subst IsCounted same counted)

same_elements :
    (xs ys : List ℕ)
    → length xs ≡ length ys
    → ((k : ℕ) → k < length xs → get_elem? xs k ≡ get_elem? ys k)
    → xs ≡ ys
same_elements [] [] h e = refl
same_elements [] (y ∷ ys) h e = ground arith
same_elements (x ∷ xs) [] h e = ground arith
same_elements (x ∷ xs) (y ∷ ys) h e =
    let heads : some x ≡ some y = e 0 (ground arith) in
    let tails = same_elements xs ys (omega (arith, h)) (λ k l. e (suc k) (omega (arith, l))) in cc

-- The loop makes any list whose positions hold their own numbers.
pub ports-IsCounted : (ports : List ℕ) → IsCounted ports → push_ports (length ports) 0 [] ≡ ports
ports-IsCounted ports counted =
    let (size, pushed_counted) = pushed (length ports) in
    same_elements (push_ports (length ports) 0 []) ports size
      (λ k l. pushed_counted k l ∙ sym (counted k (omega (arith, l, size))))
