-- ===== src/Component.antt =====
-- The component registry of core/kernel/module/module.c. A handler is an address, 0 is NULL; what the
-- handlers hold is given by `identifier_of` (`none` for a NULL identifier) and by `startup_of` (`none`
-- for a NULL function, else the result of the call). `shut_down` records whose `shutdown`
-- was called, the last first; nothing is called where that is NULL.
pub mod Registry
pub mod Removal
mod Tests
use kernix_os.Base.{
  ℕ, zero, suc, ◌+◌, ◌-◌, Bool, true, false, not, ◌&&◌, ◌||◌, Option, none, some, List, [], ◌∷◌,
  get_or, set, replicate, shift_down, ltb, leb, ◌==◌, if◌then◌else◌,
}

abbrev pub component_limit : ℕ
component_limit = 256

pub record Components : Type 0 where
  pub registered_handlers : List ℕ
  pub handler_total : ℕ
  pub shut_down : List ℕ

pub initialize_component_system : Components → Components
initialize_component_system r = record r {
  registered_handlers = replicate component_limit 0;
  handler_total = 0;
}

-- The comparing loop of both searches, and the test after it
pub identical : List ℕ → List ℕ → Bool
identical [] [] = true
identical [] (d ∷ second) = false
identical (c ∷ first) [] = false
identical (c ∷ first) (d ∷ second) =
    let rest = identical first second in if c == d then rest else false

-- The result of enrolling: -1, or the failure code of `startup`, or 0
pub data Enrolled : Type 0 where
  refused : Enrolled
  failed : ℕ → Enrolled
  enrolled : Enrolled

-- The loop over the handlers that are already there
pub known_from : ℕ → ℕ → ℕ → List ℕ → Bool
known_from zero idx handler handlers = false
known_from (suc left) idx handler handlers =
    let rest = known_from left (idx + 1) handler handlers in
    if get_or handlers idx 0 == handler then true else rest

pub start_component : ℕ → Option ℕ → Components → Enrolled × Components
start_component handler none r = (
  enrolled,
  record r {
    registered_handlers = set r.registered_handlers r.handler_total handler;
    handler_total = r.handler_total + 1;
  },
)
start_component handler (some result) r = if not (result == 0) then (failed result, r) else (
  enrolled,
  record r {
    registered_handlers = set r.registered_handlers r.handler_total handler;
    handler_total = r.handler_total + 1;
  },
)

pub enroll_component : (ℕ → Option ℕ) → ℕ → Components → Enrolled × Components
unfolding known_from start_component
enroll_component startup_of handler r =
    if (handler == 0) || leb component_limit r.handler_total
    then (refused, r)
    else if known_from r.handler_total 0 handler r.registered_handlers
    then (refused, r)
    else start_component handler (startup_of handler) r

pub named : List ℕ → Option (List ℕ) → Bool
unfolding identical
named identifier none = false
named identifier (some name) = identical identifier name

-- The index at which the search of `remove_component` and `locate_component` stops
pub search_from : (ℕ → Option (List ℕ)) → ℕ → ℕ → List ℕ → List ℕ → Option ℕ
unfolding named
search_from identifier_of zero idx identifier handlers = none
search_from identifier_of (suc left) idx identifier handlers =
    let h = get_or handlers idx 0 in
    let rest = search_from identifier_of left (idx + 1) identifier handlers in
    if not (h == 0) && named identifier (identifier_of h) then some idx else rest

pub remove_index : Option ℕ → Components → Components
remove_index none r = r
remove_index (some idx) r =
    let h = get_or r.registered_handlers idx 0 in
    let shifted = shift_down 0 (r.handler_total - 1 - idx) idx r.registered_handlers in
    record r {
      registered_handlers = set shifted (r.handler_total - 1) 0;
      handler_total = r.handler_total - 1;
      shut_down = h ∷ r.shut_down;
    }

pub remove_component : (ℕ → Option (List ℕ)) → List ℕ → Components → Components
unfolding search_from remove_index
remove_component identifier_of identifier r =
    remove_index (search_from identifier_of r.handler_total 0 identifier r.registered_handlers) r

pub handler_at : Option ℕ → Components → ℕ
handler_at none r = 0
handler_at (some idx) r = get_or r.registered_handlers idx 0

pub locate_component : (ℕ → Option (List ℕ)) → List ℕ → Components → ℕ
unfolding search_from handler_at
locate_component identifier_of identifier r =
    handler_at (search_from identifier_of r.handler_total 0 identifier r.registered_handlers) r

pub count_components : Components → ℕ
count_components r = r.handler_total

pub component_at_position : ℕ → Components → ℕ
component_at_position position r =
    if leb r.handler_total position then 0 else get_or r.registered_handlers position 0
