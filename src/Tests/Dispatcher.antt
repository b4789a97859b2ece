-- ===== src/Tests/Dispatcher.antt =====
-- srsran_mex_dispatcher.h with the actions of a counter.
use srs_ran_matlab.Prelude.{ℕ, zero, suc, ◌≡◌, refl, [], ◌∷◌, ◌++◌, ◌⊎◌, some, none}
use srs_ran_matlab.Mex.{err, abort, text, ok}
use srs_ran_matlab.Mex.Call.{done, stop}
use srs_ran_matlab.Mex.Dispatcher.{Method, Callbacks, find, create_callbacks, dispatch}
use srs_ran_matlab.Mex.Dispatcher.Table.{Distinct, create_callbacks_duplicate, dispatch_registered}
use srs_ran_matlab.Tests.Values.{Value, chars, matlab}

abbrev count : Method Value ℕ ℕ
count outputs inputs s = done s (suc s)

abbrev reset : Method Value ℕ ℕ
reset outputs inputs s = done s zero

abbrev table : Callbacks Value ℕ ℕ
table = ("new", reset) ∷ ("step", count) ∷ []

table-Distinct : Distinct table
unfolding find
table-Distinct = (refl, (refl, tt))

create_callbacks_duplicate_example :
    create_callbacks (table ++ (("step", reset) ∷ table)) []
    ≡ err (abort "Action {} already exists." (text "step" ∷ []))
unfolding find
create_callbacks_duplicate_example =
    create_callbacks_duplicate table table "step" reset count table-Distinct refl

dispatch_registered_example :
    (t : Callbacks Value ℕ ℕ) × (create_callbacks table [] ≡ ok t)
    × (((method : Method Value ℕ ℕ) × (find "step" table ≡ some method)
          × (dispatch matlab t 1 (chars "step" ∷ []) 3 ≡ method 1 (chars "step" ∷ []) 3))
        ⊎ ((find "step" table ≡ none)
            × (dispatch matlab t 1 (chars "step" ∷ []) 3
                ≡ stop (abort "Unknown action: {}." (text "step" ∷ [])) 3)))
dispatch_registered_example =
    dispatch_registered matlab table 1 (chars "step") [] "step" 3 table-Distinct refl refl
