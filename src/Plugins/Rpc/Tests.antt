-- ===== src/Plugins/Rpc/Tests.antt =====
-- A connection with one request and two messages for an ordered handler.
use Prim.Native.Nat.{◌+◌, ◌≤◌}
use nexus_n3_core.Prelude.{
  String, true, false, none, some, [], ◌∷◌, ◌++◌, ◌≡◌, refl, All, add, contains, discard,
}
use nexus_n3_core.Plugins.Rpc.{
  Message, replied, Connection, new_connection, register_handler, enter_request, receive, close,
}
use nexus_n3_core.Plugins.Rpc.Answers.{
  World, enters, receives, closes, Reachable, new, next, times, times_answered, IsOwn, moved,
  answered_once,
}
use nexus_n3_core.Plugins.Rpc.Order.{reads, works, acted, in_turn, ordered_reads, in_turn-acted}

abbrev reply : Message
reply = record { method = none; id = some "r1"; content = "result" }

abbrev w1 : World
w1 = record { connection = enter_request "r1" new_connection; used = "r1" ∷ [] }

abbrev w2 : World
w2 = moved w1 (receive reply w1.connection)

abbrev w3 : World
w3 = moved w2 (close w2.connection)

is_new : contains [] "r1" ≡ false
unfolding contains
is_new = refl

closed_after_reply : w3.connection.answers ≡ ("r1", replied reply) ∷ []
unfolding enter_request new_connection receive close contains discard
closed_after_reply = refl

reachable : Reachable w3
reachable = next (next (next new (enters "r1" is_new)) (receives reply)) closes

answered_once_example :
    (times "r1" w3.connection.pending + times_answered "r1" w3.connection.answers ≤ 1)
    × All IsOwn w3.connection.answers
answered_once_example = answered_once w3 "r1" reachable

abbrev data_message : String → Message
data_message content = record { method = some "data"; id = none; content = content }

abbrev ordered : Connection
ordered = register_handler "data" true new_connection

two_in_order :
    (acted
      (reads (data_message "a") ∷ reads (data_message "b") ∷ works ∷ works ∷ [])
      ordered).handled
    ≡ data_message "a" ∷ data_message "b" ∷ []
unfolding acted register_handler new_connection add contains
two_in_order = refl

in_turn-acted_example :
    in_turn (acted (reads (data_message "a") ∷ works ∷ reads (data_message "b") ∷ []) ordered)
    ≡ in_turn ordered
      ++ ordered_reads ordered.ordered_methods
          (reads (data_message "a") ∷ works ∷ reads (data_message "b") ∷ [])
in_turn-acted_example =
    in_turn-acted (reads (data_message "a") ∷ works ∷ reads (data_message "b") ∷ []) ordered
