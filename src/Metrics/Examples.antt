-- ===== src/Metrics/Examples.antt =====
-- Registration on a registry that is the list of its names.
use ai_gateway_monitor.Common.{
  ◌≡◌, refl, Bool, true, false, ◌||◌, String, List, [], ◌∷◌, str_eq, if◌then◌else◌,
}
use ai_gateway_monitor.Metrics.{Instrument}
use ai_gateway_monitor.Metrics.Registration.{
  Registry, IsDocumented, Registers, metric_names, register_on, register_on-Registers,
}

abbrev contains : List String → String → Bool
contains [] name = false
contains (x ∷ xs) name = str_eq x name || contains xs name

must_register : List Instrument → List String → Bool × List String
must_register [] s = (true, s)
must_register (i ∷ rest) s =
    let registered = must_register rest (i.name ∷ s) in
    if contains s i.name then (false, s) else registered

abbrev names : Registry (List String)
unfolding must_register
names = record { taken = contains; added = λ i s. i.name ∷ s; must_register = must_register }

names-IsDocumented : IsDocumented names
unfolding must_register
names-IsDocumented = record {
  nothing = λ s. refl;
  panics = λ s i rest h. rw h;
  goes_on = λ s i rest ok h. rw h;
  taken-added = λ s i name. refl;
}

register_on-Registers_example :
    Registers names metric_names [] (register_on names [] [])
    × ((register_on names [] (register_on names [] []).1).0 ≡ false)
register_on-Registers_example = register_on-Registers names names-IsDocumented [] []
