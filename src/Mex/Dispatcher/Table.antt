-- ===== src/Mex/Dispatcher/Table.antt =====
-- srsran_mex_dispatcher.h: from the names that a constructor registers to the method that a call
-- runs.
use srs_ran_matlab.Prelude.{
  ℕ, String, List, [], ◌∷◌, ◌++◌, Option, none, some, ◌≡◌, refl, sym, eq_iff, arith, ◌∙◌, ap, inl,
  inr, ◌⊎◌, Option-cases,
}
use srs_ran_matlab.Mex.Outcome.{ok, err, abort, text, Result-cases, ok-injective, >>=-eq-ok}
use srs_ran_matlab.Mex.Outcome.{◌>>=◌ as bind}
use srs_ran_matlab.Mex.Call.{stop}
use srs_ran_matlab.Mex.Inputs.{Matlab, char}
use srs_ran_matlab.Mex.Dispatcher.{
  Method, Callbacks, find, create_callback, create_callbacks, run_action, dispatch,
}

module _ {Array S Out : Type 0} where
  -- No name stands twice.
  abbrev pub Distinct : Callbacks Array S Out → Type 0
  Distinct [] = Unit {0}
  Distinct ((name, method) ∷ table) = (find name table ≡ none) × Distinct table

  -- No name of the table is one of the callbacks.
  abbrev NewIn : Callbacks Array S Out → Callbacks Array S Out → Type 0
  NewIn callbacks [] = Unit {0}
  NewIn callbacks ((name, method) ∷ table) = (find name callbacks ≡ none) × NewIn callbacks table

  abbrev first_of_two :
      Option (Method Array S Out) → Option (Method Array S Out) → Option (Method Array S Out)
  first_of_two none o = o
  first_of_two (some method) o = some method

  NewIn-cons :
      (name : String) (method : Method Array S Out) (callbacks table : Callbacks Array S Out)
      → find name table ≡ none
      → NewIn callbacks table
      → NewIn ((name, method) ∷ callbacks) table
  unfolding find
  NewIn-cons name method callbacks [] e new = tt
  NewIn-cons name method callbacks ((other, m') ∷ table) e (absent, new) =
      ground (arith, eq_iff name other, eq_iff other name, NewIn-cons name method callbacks table)

  create_callback_new :
      (name : String) (method : Method Array S Out) (callbacks : Callbacks Array S Out)
      → find name callbacks ≡ none
      → create_callback name method callbacks ≡ ok ((name, method) ∷ callbacks)
  unfolding create_callback
  create_callback_new name method callbacks e = rw e

  registered :
      (n : String) (name : String) (method : Method Array S Out)
      (table callbacks : Callbacks Array S Out)
      → find name table ≡ none
      → first_of_two (find n table) (find n ((name, method) ∷ callbacks))
        ≡ first_of_two (find n ((name, method) ∷ table)) (find n callbacks)
  unfolding find
  registered n name method table callbacks e = ground (arith, eq_iff name n)

  create_callbacks_lem :
      (table callbacks : Callbacks Array S Out)
      → Distinct table
      → NewIn callbacks table
      → (t : Callbacks Array S Out) × (create_callbacks table callbacks ≡ ok t)
        × ((n : String) → find n t ≡ first_of_two (find n table) (find n callbacks))
  unfolding create_callbacks find
  create_callbacks_lem [] callbacks d new = (callbacks, refl, λ n. refl)
  create_callbacks_lem ((name, method) ∷ table) callbacks (absent, d) (fresh, new) =
      let (t, e, found) =
        create_callbacks_lem table ((name, method) ∷ callbacks) d
          (NewIn-cons name method callbacks table absent new) in
      (
        t,
        rw (create_callback_new name method callbacks fresh) e,
        λ n. found n ∙ registered n name method table callbacks absent,
      )

  NewIn-nil : (table : Callbacks Array S Out) → NewIn [] table
  unfolding find
  NewIn-nil [] = tt
  NewIn-nil ((name, method) ∷ table) = (refl, NewIn-nil table)

  first_of_two-none : (o : Option (Method Array S Out)) → first_of_two o none ≡ o
  first_of_two-none none = refl
  first_of_two-none (some method) = refl

  pub create_callbacks-Distinct :
      (table : Callbacks Array S Out)
      → Distinct table
      → (t : Callbacks Array S Out) × (create_callbacks table [] ≡ ok t)
        × ((n : String) → find n t ≡ find n table)
  unfolding find
  create_callbacks-Distinct table d =
      let (t, e, found) = create_callbacks_lem table [] d (NewIn-nil table) in
      (t, e, λ n. found n ∙ first_of_two-none (find n table))

  pub find_registered :
      (table t : Callbacks Array S Out)
      → Distinct table
      → create_callbacks table [] ≡ ok t
      → (n : String) → find n t ≡ find n table
  find_registered table t d e n =
      let (t', e', found) = create_callbacks-Distinct table d in
      ap (find n) (ok-injective t t' (sym e ∙ e')) ∙ found n

  -- A constructor that returns has registered its table, and leaves the members as it made them.
  pub construct_registered :
      (table callbacks : Callbacks Array S Out) (made s : S)
      → bind {B = S × Callbacks Array S Out} (create_callbacks table []) (λ t. ok (made, t))
        ≡ ok (s, callbacks)
      → (create_callbacks table [] ≡ ok callbacks) × (s ≡ made)
  construct_registered table callbacks made s e =
      let (t, registered, returned) = >>=-eq-ok (create_callbacks table []) _ e in
      let same = ok-injective _ (s, callbacks) returned in
      (registered ∙ ap (λ p. ok p.1) same, sym (ap (λ p. p.0) same))

  create_callbacks-append :
      (xs ys callbacks : Callbacks Array S Out)
      → create_callbacks (xs ++ ys) callbacks
        ≡ bind (create_callbacks xs callbacks) (create_callbacks ys)
  unfolding create_callbacks
  create_callbacks-append [] ys callbacks = refl
  create_callbacks-append ((name, method) ∷ xs) ys callbacks =
      elim (Result-cases (create_callback name method callbacks)) [
        | inl (stopped, e) ↦ rw e
        | inr (more, e) ↦ rw e (create_callbacks-append xs ys more)
      ]

  create_callback_again :
      (name : String) (method old : Method Array S Out) (callbacks : Callbacks Array S Out)
      → find name callbacks ≡ some old
      → create_callback name method callbacks
        ≡ err (abort "Action {} already exists." (text name ∷ []))
  unfolding create_callback
  create_callback_again name method old callbacks e = rw e

  -- A constructor that registers a name for the second time, after distinct names, aborts with that
  -- name, whatever it would register next.
  pub create_callbacks_duplicate :
      (xs ys : Callbacks Array S Out) (name : String) (method old : Method Array S Out)
      → Distinct xs
      → find name xs ≡ some old
      → create_callbacks (xs ++ ((name, method) ∷ ys)) []
        ≡ err (abort "Action {} already exists." (text name ∷ []))
  unfolding create_callbacks
  create_callbacks_duplicate xs ys name method old d e =
      let (t, registered_xs, found) = create_callbacks-Distinct xs d in
      create_callbacks-append xs ((name, method) ∷ ys) []
      ∙ ap (λ r. bind r (create_callbacks ((name, method) ∷ ys))) registered_xs
      ∙ rw (create_callback_again name method old t (found name ∙ e))

module _ (m : Matlab) {S Out : Type 0} where
  -- A constructor that registers distinct names succeeds, and afterwards a call whose first input is a
  -- char array either runs the method registered under that text, with all the inputs, the text among
  -- them, and on the object's state, or, if there is none, aborts with the unknown action and the state
  -- as it was.
  pub dispatch_registered :
      (table : Callbacks m.Array S Out) (outputs : ℕ) (first : m.Array) (rest : List m.Array)
      (name : String) (s : S)
      → Distinct table
      → m.get_type first ≡ char
      → m.to_ascii first ≡ ok name
      → (t : Callbacks m.Array S Out) × (create_callbacks table [] ≡ ok t)
        × (((method : Method m.Array S Out) × (find name table ≡ some method)
              × (dispatch m t outputs (first ∷ rest) s ≡ method outputs (first ∷ rest) s))
            ⊎ ((find name table ≡ none)
                × (dispatch m t outputs (first ∷ rest) s
                    ≡ stop (abort "Unknown action: {}." (text name ∷ [])) s)))
  unfolding dispatch run_action
  dispatch_registered table outputs first rest name s d is_char read =
      let (t, e, found) = create_callbacks-Distinct table d in
      (
        t,
        e,
        elim (Option-cases (find name table)) [
          | inl unknown ↦ inr (unknown, rw (is_char, read, found name, unknown) refl)
          | inr (method, known) ↦ inl (method, known, rw (is_char, read, found name, known) refl)
        ],
      )
