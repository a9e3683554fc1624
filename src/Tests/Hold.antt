-- ===== src/Tests/Hold.antt =====
-- The theorems on services/hold.ts at a slot of two ends and at a property.
use hkp_node.Shared.{◌≡◌, refl, List, [], ◌∷◌}
use hkp_node.Shared.Json.{Json, Fields}
use hkp_node.Services.Hold.{Op, reads, writes, Hold, process}
use hkp_node.Services.Hold.Latest.{use_all, process-use_all}

abbrev report : Json → Json
report value = value

abbrev end_of : Op → Hold
end_of op = record {
  property = "";
  slot = "s";
  op = op;
  own = Json.null;
  read_count = 0;
  write_count = 0;
}

abbrev uses : List (Hold × Json)
uses =
    (end_of writes, Json.str "old")
    ∷ (end_of reads, Json.null)
    ∷ (end_of writes, Json.str "new")
    ∷ []

process-use_all_example :
    (process report Json.null (end_of reads) (use_all report uses [])).3 ≡ Json.str "new"
process-use_all_example =
    process-use_all report uses [] (end_of reads) Json.null (refl, (refl, (refl, tt))) refl refl

abbrev by_price : Hold
by_price = record (end_of reads) { property = "price"; slot = "" }

abbrev price : Json
price = Json.obj (Fields.field "price" (Json.str "9") Fields.end)
