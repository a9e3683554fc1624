-- ===== src/Services/Spread.antt =====
-- services/spread.ts: one array in, one part for each of its items out. The group's name is drawn by
-- `randomUUID`, so it is an argument; finding the array at `itemsFrom` is not modelled, so `process`
-- takes the source that was found beside its input.
use hkp_node.Shared.{ℕ, ◌+◌, String, Bool, List, [], ◌∷◌, length, if◌then◌else◌}
use hkp_node.Shared.Json.{Json, elements, is_nullish}
use hkp_node.Services.Gather.{Part}

pub record Spread : Type 0 where
  pub bypass : Bool
  pub last_total : ℕ

-- `items`
unfoldable pub items_of_source : Json → List Json
unfolding elements
items_of_source (Json.arr items) = elements items
items_of_source source = if is_nullish source then [] else source ∷ []

unfoldable pub parts_from : String → ℕ → ℕ → List Json → List Part
parts_from group total index [] = []
parts_from group total index (item ∷ items) =
    record { item = item; group = group; index = index; total = total }
    ∷ parts_from group total (index + 1) items

-- What the loop of `process` sends on for the items of one group.
unfoldable pub sent_parts : String → List Json → List Part
unfolding parts_from
sent_parts group items = parts_from group (length items) 0 items

-- What a call does: it passes its input on, or sends parts and answers nothing.
pub data Answer : Type 0 where
  passed : Json → Answer
  sent : List Part → Answer

abbrev pub after : List Json → Spread → Spread
after [] s = s
after (item ∷ items) s = record s { last_total = length (item ∷ items) }

-- `process`, with the host there.
unfoldable pub process : String → Json → Json → Spread → Spread × Answer
unfolding items_of_source sent_parts
process group input source s =
    if s.bypass
    then (s, passed input)
    else (after (items_of_source source) s, sent (sent_parts group (items_of_source source)))
