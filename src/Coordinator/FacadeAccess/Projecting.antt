-- ===== src/Coordinator/FacadeAccess/Projecting.antt =====
-- coordinator/facadeAccess.ts: what of a service's state and notifications a facade's paths read. How a
-- path splits at its dots and which names are an array's indices come from the host.
pub mod Paths
pub mod Resolving
use hkp_node.Shared.{
  ℕ, String, Bool, true, false, not, ◌&&◌, ◌||◌, List, [], ◌∷◌, Option, none, some, any, keep, map,
  if◌then◌else◌, ◌==◌, string_eq, nat_eq, or_else, truthy, length, get_elem?,
}
use hkp_node.Shared.OrderedMap.{OrderedMap, get}
use hkp_node.Shared.Json.{
  Json, Fields, nat, null, undefined, flag, number, str, bytes, arr, obj, end, field?, set_field,
  elements, count_fields, fields_of,
}

-- `MACHINERY.has(key)`
abbrev pub is_machinery : String → Bool
is_machinery key = key == "__proto__" || key == "constructor" || key == "prototype"

-- `isPlainPath`, of the segments of a path.
abbrev pub is_plain : List String → Bool
is_plain keys = not (any is_machinery keys)

abbrev pub is_missing : Json → Bool
is_missing undefined = true
is_missing null = false
is_missing (flag b) = false
is_missing (number n) = false
is_missing (str s) = false
is_missing (bytes b) = false
is_missing (arr items) = false
is_missing (obj fields) = false

-- The object at a name, where `writePath` goes on in it, else the one that it creates.
abbrev pub child_of : Option Json → Fields
child_of none = end
child_of (some value) = or_else (fields_of value) end

abbrev pub child : String → Fields → Fields
child key fields = child_of (field? key fields)

-- The loop of `writePath` and its assignment.
unfoldable pub write_keys : Fields → List String → Json → Fields
write_keys fields [] value = fields
write_keys fields (key ∷ keys) value =
    let deeper = obj (write_keys (child key fields) keys value) in
    elim keys [ [] ↦ set_field key value fields | k ∷ ks ↦ set_field key deeper fields ]

module _ (array_index : String → Option ℕ) where
  -- One step of `readPath`: the own property of a name.
  abbrev pub own : String → Json → Json
  own key (obj fields) =
      if is_machinery key then undefined else or_else (field? key fields) undefined
  own key (arr items) =
      if key == "length" then number (nat (length (elements items))) else elim (array_index key) [
        | none ↦ undefined
        | some i ↦ or_else (get_elem? (elements items) i) undefined
      ]
  own key null = undefined
  own key undefined = undefined
  own key (flag b) = undefined
  own key (number n) = undefined
  own key (str s) = undefined
  own key (bytes b) = undefined

  -- `readPath`, of the segments of a path.
  unfoldable pub read_keys : Json → List String → Json
  read_keys value [] = value
  read_keys value (key ∷ keys) = read_keys (own key value) keys

  -- One round of `pick`.
  unfoldable pub pick_one : Json → List String → Fields → Fields
  pick_one value keys picked =
      if is_missing (read_keys value keys)
      then picked
      else if is_plain keys
      then write_keys picked keys (read_keys value keys)
      else picked

  unfoldable pub pick_all : Json → List (List String) → Fields → Fields
  pick_all value [] picked = picked
  pick_all value (keys ∷ paths) picked = pick_all value paths (pick_one value keys picked)

  module _ (split : String → List String) where
    -- `pick`
    unfoldable pub pick : Json → List String → Fields
    pick value paths = pick_all value (map split (keep truthy paths)) end

    -- `projectState`, of the sources of a facade.
    unfoldable pub project_state : OrderedMap String (List String) → String → Json → Fields
    project_state sources service_uuid state = pick state (or_else (get service_uuid sources) [])

    -- `projectNotification`
    unfoldable pub project_notification :
        OrderedMap String (List String) → String → Json → Option Json
    project_notification sources service_uuid payload =
        let paths = or_else (get service_uuid sources) [] in
        let projected = pick payload paths in
        if any (λ path. not (truthy path)) paths
        then some payload
        else if count_fields projected == 0
        then none
        else some (obj projected)
