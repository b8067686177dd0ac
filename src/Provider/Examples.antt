-- ===== src/Provider/Examples.antt =====
-- Errors and calls of concrete providers.
use vm_orbit.Base.{String, true, false, List, [], ◌∷◌}
use vm_orbit.Provider.Errors.{Details, code_timeout}
use vm_orbit.Provider.Health.Tally.{Event, call, reconnect}

abbrev details : Details
details = record {
  code = code_timeout;
  provider = "vmware";
  operation = "PowerOn";
  message = "no answer";
}

abbrev messages : List String
messages = "power on" ∷ "reboot" ∷ []

abbrev calls : List Event
calls =
    call "a" false 5 40
    ∷ call "b" true 4 30
    ∷ call "a" true 3 20
    ∷ reconnect "a"
    ∷ call "a" false 2 10
    ∷ []
