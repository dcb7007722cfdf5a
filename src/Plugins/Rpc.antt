-- ===== src/Plugins/Rpc.antt =====
-- JsonRpcConnection in nexus_n3/plugins/common/jsonrpc.py: its table of pending requests and the queue
-- of its ordered handlers. A request is known by its id, and `answers` holds the responses that were
-- set before their requests were woken. The text on the wire, the operations that go with a message
-- and what a handler returns are left out.
pub mod Answers
pub mod Order
mod Tests
use nexus_n3_core.Prelude.{
  String, Bool, true, false, Option, none, some, List, [], ◌∷◌, ◌++◌, map, if◌then◌else◌, contains,
  add, discard, str_eq, str_of, nonempty,
}

pub record Message : Type 0 where
  pub method : Option String
  pub id : Option String
  pub content : String

pub data Response : Type 0 where
  -- the message that came for the request
  replied : Message → Response
  -- the connection closed
  connection_closed : Response

pub record Connection : Type 0 where
  pub closed : Bool
  pub pending : List String
  pub answers : List (String × Response)
  pub ordered_methods : List String
  -- `none` ends the worker
  pub ordered_queue : List (Option Message)
  pub worker_stopped : Bool
  -- what the ordered worker has handled, and what threads of their own handle
  pub handled : List Message
  pub spawned : List Message

unfoldable pub new_connection : Connection
new_connection = record {
  closed = false;
  pending = [];
  answers = [];
  ordered_methods = [];
  ordered_queue = [];
  worker_stopped = false;
  handled = [];
  spawned = [];
}

unfoldable pub register_handler : (method : String) (ordered : Bool) → Connection → Connection
register_handler method ordered c = record c {
  ordered_methods =
      if ordered then add method c.ordered_methods else discard method c.ordered_methods;
}

-- The part of `request` that enters it in the table.
unfoldable pub enter_request : String → Connection → Connection
enter_request id c = record c { pending = id ∷ c.pending }

-- The `finally` of `request`, after its answer, its timeout or a failed write.
unfoldable pub leave_request : String → Connection → Connection
leave_request id c = record c { pending = discard id c.pending }

-- `str(message.get("id") or "")`
abbrev pub text_of : Option String → String
text_of none = ""
text_of (some s) = s

unfoldable pub dispatch_response : Message → Connection → Connection
dispatch_response m c =
    if contains c.pending (text_of m.id)
    then record c {
      pending = discard (text_of m.id) c.pending;
      answers = c.answers ++ (text_of m.id, replied m) ∷ [];
    }
    else c

abbrev pub closed_answers : List String → List (String × Response)
closed_answers ids = map (λ id. (id, connection_closed)) ids

unfoldable pub fail_pending : Connection → Connection
fail_pending c = record c { pending = []; answers = c.answers ++ closed_answers c.pending }

abbrev pub put : Option Message → Connection → Connection
put m c = record c { ordered_queue = c.ordered_queue ++ m ∷ [] }

unfoldable pub close : Connection → Connection
unfolding fail_pending
close c = if c.closed then c else put none (fail_pending (record c { closed = true }))

-- The end of `_read_loop`.
unfoldable pub end_reading : Connection → Connection
unfolding fail_pending
end_reading c = put none (fail_pending (record c { closed = true }))

unfoldable pub dispatch_request : Message → Connection → Connection
dispatch_request m c =
    if contains c.ordered_methods (text_of m.method)
    then put (some m) c
    else record c { spawned = c.spawned ++ m ∷ [] }

-- A line that `_read_loop` has decoded.
unfoldable pub receive : Message → Connection → Connection
unfolding dispatch_request dispatch_response
receive m c = elim m.method [ none ↦ dispatch_response m c | some x ↦ dispatch_request m c ]

-- One round of `_ordered_worker_loop`.
unfoldable pub work_off : Connection → Connection
work_off c = if c.worker_stopped then c else elim c.ordered_queue [
  | [] ↦ c
  | none ∷ ms ↦ record c { ordered_queue = ms; worker_stopped = true }
  | some m ∷ ms ↦ record c { ordered_queue = ms; handled = c.handled ++ m ∷ [] }
]
