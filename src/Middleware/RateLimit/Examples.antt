-- ===== src/Middleware/RateLimit/Examples.antt =====
-- The limiter on concrete requests: two are allowed in a minute of 60.
use vm_orbit.Base.{suc, min, ◌≡◌, refl, List, [], ◌∷◌, arith}
use vm_orbit.Base.Map.{lookup}
use vm_orbit.Middleware.RateLimit.{Event, request, sweep}
use vm_orbit.Middleware.RateLimit.Window.{requests_of, admitted, admitted_in_window}

abbrev events : List Event
events = request "k" 20 ∷ request "j" 25 ∷ sweep 30 ∷ request "k" 40 ∷ []

admitted_in_window_example :
    admitted "k" 2 60 (request "k" 10 ∷ events) [] ≡ min (suc (requests_of "k" events)) 2
unfolding lookup
admitted_in_window_example =
    admitted_in_window "k" 2 60 10 events [] tt refl
      (omega arith, (omega arith, (omega arith, (omega arith, tt))))
