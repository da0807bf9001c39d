-- ===== src/Component/Tests.antt =====
-- A registry with the component `ab` at address 7.
use kernix_os.Base.{ℕ, refl, Option, some, List, [], ◌∷◌, replicate}
use kernix_os.Component.{Components, enroll_component, remove_component}
use kernix_os.Component.Registry.{Registered, Enrolling, enroll_component-Enrolling}
use kernix_os.Component.Removal.{Removed, remove_component-Removed}

abbrev registry : Components
registry = record { registered_handlers = 7 ∷ replicate 255 0; handler_total = 1; shut_down = [] }

registry-Registered : Registered registry (7 ∷ [])
registry-Registered = record { free = 255; content = refl; counted = refl; limit = refl }

abbrev name_of : ℕ → Option (List ℕ)
name_of h = some (97 ∷ 98 ∷ [])

abbrev starts : ℕ → Option ℕ
starts h = some 0

enroll_component-Enrolling_example :
    Enrolling 9 (7 ∷ []) (some 0) registry (enroll_component starts 9 registry)
enroll_component-Enrolling_example =
    enroll_component-Enrolling starts 9 (7 ∷ []) registry registry-Registered

remove_component-Removed_example :
    Removed name_of
      (97 ∷ 98 ∷ [])
      (7 ∷ [])
      registry
      (remove_component name_of (97 ∷ 98 ∷ []) registry)
remove_component-Removed_example =
    remove_component-Removed name_of (97 ∷ 98 ∷ []) (7 ∷ []) registry registry-Registered
