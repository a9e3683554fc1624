-- ===== src/Tests/Queue.antt =====
-- The theorems on services/queue-store.ts at a table of two messages.
use hkp_node.Shared.{
  ℕ, ◌≤◌, ◌≢◌, refl, String, false, List, [], ◌∷◌, none, some, arith, eq_iff, length, string_eq,
  nat_eq, All,
}
use hkp_node.Services.Queue.Rows.{pending, Message, Table}
use hkp_node.Services.Queue.{Host, handed_back, consume, Consume}
use hkp_node.Services.Queue.Versions.{
  Unique, Statement, inserts, claims, closes, exec_all, total_handed_out, total_handed_out-le-one,
}
use hkp_node.Services.Queue.Statements.{
  Call, published, consumed, closed, total_delivered, total_delivered-le-one,
}
use hkp_node.Services.Queue.Delivery.{consume_sound, IsFit}
use hkp_node.Services.Queue.Visibility.{consume-consume}

abbrev host : Host
host = record {
  Value = ℕ;
  stringify = λ n. "1";
  parse = λ s. none;
  decimal = λ n. "5";
  id_lt = λ a b. false;
}

abbrev waiting : String → Message
waiting id = record {
  id = id;
  topic = "mail";
  payload = "1";
  status = pending;
  published_by = "board";
  published_at = 10;
  available_at = 10;
  claimed_at = none;
  attempts = 0;
  updated_at = 10;
  error = "";
}

abbrev two_messages : Table
two_messages = waiting "a" ∷ waiting "b" ∷ []

abbrev ask : Consume
ask = record { topic = "mail"; limit = some 1; visibility_seconds = none; max_attempts = none }

two_messages-Unique : Unique two_messages
two_messages-Unique = (refl, (refl, tt))

total_handed_out-le-one_example :
    total_handed_out host "a" 0
      (claims 20 300 (waiting "a")
        ∷ closes "a" handed_back none none 25
        ∷ claims 30 300 (waiting "a")
        ∷ [])
      two_messages
    ≤ 1
total_handed_out-le-one_example =
    total_handed_out-le-one host "a" 0
      (claims 20 300 (waiting "a")
        ∷ closes "a" handed_back none none 25
        ∷ claims 30 300 (waiting "a")
        ∷ [])
      two_messages two_messages-Unique

-- A message that is consumed, handed back and consumed again.
abbrev queue_calls : List (Call host)
queue_calls =
    consumed ask 20
    ∷ closed "b" handed_back none none 25
    ∷ published "mail" 7 "board" (some "b") "d" 26
    ∷ consumed ask 30
    ∷ []

total_delivered-le-one_example : total_delivered host "b" 0 queue_calls two_messages ≤ 1
total_delivered-le-one_example =
    total_delivered-le-one host "b" 0 queue_calls two_messages two_messages-Unique

consume_sound_example :
    All (IsFit host ask) (consume host ask 20 two_messages).1
    × (length (consume host ask 20 two_messages).1 ≤ 1)
consume_sound_example = consume_sound host ask 20 two_messages

-- What the processes run between the two consumes.
abbrev between : List Statement
between =
    claims 25 1 (waiting "a") ∷ closes "a" handed_back none none 26 ∷ inserts (waiting "b") ∷ []

consume-consume_example :
    All
      (λ e. e.id ≢ "b")
      (consume host ask 30 (exec_all host between (consume host ask 20 two_messages).0)).1
unfolding consume
consume-consume_example =
    consume-consume host ask ask 20 30 "b" between two_messages two_messages-Unique (omega arith)
      refl (omega arith, ((λ h. cc ((eq_iff "a" "b").1 h)), (tt, tt))) (omega arith)
