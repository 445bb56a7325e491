-- ===== src/Examples/Sinks.antt =====
-- The receiver of events at concrete runs.
use kaya_basic.Base.{◌≡◌, refl, some, List, [], ◌∷◌, ok}
use kaya_basic.Sinks.{ComCall, new_sink}
use kaya_basic.Sinks.Laws.{
  Use, take, give, ask, counted, use_all, use_all-Fair, session, advised, unadvised, released,
  session-points,
}

-- The interfaces are 1, 2 and 3; the COM object asks for the third and for one that there is not,
-- and gives back what it has.
abbrev uses : List Use
uses = ask 3 ∷ take ∷ ask 9 ∷ give ∷ give ∷ []

use_all-Fair_example :
    use_all 1 2 3 uses (some (counted 1 2 3 new_sink 0), [])
    ≡ ok (some (counted 1 2 3 new_sink 0), [])
use_all-Fair_example = use_all-Fair 1 2 3 uses new_sink [] 0 0 refl

session-points_example :
    (calls : List ComCall) × (session ((5, 70) ∷ (6, 71) ∷ []) ≡ ok calls)
    × (advised calls ≡ 5 ∷ 6 ∷ [])
    × (unadvised calls ≡ (5, 70) ∷ (6, 71) ∷ [])
    × (released calls ≡ 5 ∷ 6 ∷ [])
session-points_example = session-points ((5, 70) ∷ (6, 71) ∷ [])
