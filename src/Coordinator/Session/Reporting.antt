-- ===== src/Coordinator/Session/Reporting.antt =====
-- What a board's status says.
use hkp_node.Shared.{
  ◌≡◌, refl, String, Bool, true, false, not, ◌&&◌, List, [], ◌∷◌, ◌++◌, if◌then◌else◌, string_eq,
  or_else, truthy, arith,
}
use hkp_node.Shared.OrderedMap.{get, has}
use hkp_node.Coordinator.Board.{RuntimeDescriptor, BoardConfig}
use hkp_node.Coordinator.Session.{
  Session, required, error_line, error_lines, get_errors, Status, is_stopped, in_error, is_running,
  get_status, status_of,
}

-- A runtime that is connected and about which nothing is amiss.
abbrev pub is_well : Session → String → Bool
is_well s id = has id s.live && not (truthy (or_else (get id s.runtime_errors) ""))

abbrev pub all_well : Session → List RuntimeDescriptor → Bool
all_well s [] = true
all_well s (runtime ∷ runtimes) = is_well s runtime.id && all_well s runtimes

abbrev is_empty : List String → Bool
is_empty [] = true
is_empty (line ∷ lines) = false

error_line-is_well : (s : Session) (id : String) → is_empty (error_line s id) ≡ is_well s id
unfolding error_line
error_line-is_well s id = ground arith

is_empty-append : (xs ys : List String) → is_empty (xs ++ ys) ≡ (is_empty xs && is_empty ys)
is_empty-append [] ys = refl
is_empty-append (x ∷ xs) ys = refl

error_lines-all_well :
    (s : Session) (runtimes : List RuntimeDescriptor)
    → is_empty (error_lines s runtimes) ≡ all_well s runtimes
error_lines-all_well s [] = refl
error_lines-all_well s (runtime ∷ runtimes) = ground (
  arith,
  is_empty-append (error_line s runtime.id) (error_lines s runtimes),
  error_line-is_well s runtime.id,
  error_lines-all_well s runtimes,
)

status_of-is_empty :
    (lines : List String) → status_of lines ≡ (if is_empty lines then is_running else in_error)
status_of-is_empty [] = refl
status_of-is_empty (line ∷ lines) = refl

-- The status of a board as it is meant: by whether it is stopped, and whether every runtime that it
-- requires is connected and nothing is amiss with it.
abbrev pub meant_status : BoardConfig → Session → Status
meant_status config s =
    if s.stopped then is_stopped else if all_well s (required config) then is_running else in_error

-- The status that a board reports is the one that its runtimes are in: stopped, running when every
-- runtime that it requires is connected and nothing is amiss with any of them, and in error otherwise.
pub get_status-meant :
    (config : BoardConfig) (s : Session) → get_status config s ≡ meant_status config s
unfolding get_status get_errors
get_status-meant config s = ground (
  arith,
  error_lines-all_well s (required config),
  status_of-is_empty (error_lines s (required config)),
)
