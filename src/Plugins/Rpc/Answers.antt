-- ===== src/Plugins/Rpc/Answers.antt =====
-- Every request of a connection is answered at most once, and with its own message.
use nexus_n3_core.Prelude.{
  ℕ, ◌+◌, ◌≤◌, String, Bool, true, false, List, [], ◌∷◌, ◌++◌, if◌then◌else◌, contains, discard,
  str_eq, eq_iff, ◌≡◌, refl, arith, All, All-append, Bool-cases, Option-cases, inl, inr,
}
use nexus_n3_core.Plugins.Rpc.{
  Message, Response, replied, connection_closed, Connection, new_connection, register_handler,
  enter_request, leave_request, text_of, dispatch_response, closed_answers, fail_pending, close,
  end_reading, dispatch_request, receive, work_off,
}

abbrev pub one_if : Bool → ℕ
one_if true = 1
one_if false = 0

-- How often an id stands in the table, and how often it was answered.
unfoldable pub times : String → List String → ℕ
times a [] = 0
times a (x ∷ xs) = one_if (str_eq x a) + times a xs

unfoldable pub times_answered : String → List (String × Response) → ℕ
times_answered a [] = 0
times_answered a (x ∷ xs) = one_if (str_eq (x.0) a) + times_answered a xs

times_answered-append :
    (a : String) (xs ys : List (String × Response))
    → times_answered a (xs ++ ys) ≡ times_answered a xs + times_answered a ys
unfolding times_answered
times_answered-append a [] ys = omega arith
times_answered-append a (x ∷ xs) ys = omega (arith, times_answered-append a xs ys)

times_answered-closed_answers :
    (a : String) (ids : List String) → times_answered a (closed_answers ids) ≡ times a ids
unfolding times_answered times
times_answered-closed_answers a [] = refl
times_answered-closed_answers a (x ∷ xs) = omega (arith, times_answered-closed_answers a xs)

times-discard :
    (a b : String) (xs : List String)
    → times b (discard a xs) ≡ (if str_eq a b then 0 else times b xs)
unfolding times discard
times-discard a b [] = ground arith
times-discard a b (x ∷ xs) =
    ground (arith, times-discard a b xs, eq_iff a b, eq_iff x a, eq_iff x b)

times-contains : (a : String) (xs : List String) → contains xs a ≡ true → 1 ≤ times a xs
unfolding times contains
times-contains a [] h = ground (arith, h)
times-contains a (x ∷ xs) h = ground (arith, h, times-contains a xs)

abbrev pub IsOwn : String × Response → Type 0
IsOwn e = elim (e.1) [ replied m ↦ text_of m.id ≡ e.0 | connection_closed ↦ e.0 ≡ e.0 ]

-- The connection, and the ids that requests have had.
pub record World : Type 0 where
  pub connection : Connection
  pub used : List String

abbrev pub moved : World → Connection → World
moved w c = record w { connection = c }

pub data Step : World → World → Type 0 where
  registers :
      (method : String) (ordered : Bool) {w : World}
      → Step w (moved w (register_handler method ordered w.connection))
  -- a request with an id that no request has had
  enters :
      (id : String) {w : World}
      → contains w.used id ≡ false
      → Step w record { connection = enter_request id w.connection; used = id ∷ w.used }
  leaves : (id : String) {w : World} → Step w (moved w (leave_request id w.connection))
  receives : (m : Message) {w : World} → Step w (moved w (receive m w.connection))
  closes : {w : World} → Step w (moved w (close w.connection))
  reading_ends : {w : World} → Step w (moved w (end_reading w.connection))
  works : {w : World} → Step w (moved w (work_off w.connection))

pub data Reachable : World → Type 0 where
  new : Reachable record { connection = new_connection; used = [] }
  next : {w w' : World} → Reachable w → Step w w' → Reachable w'

record IsSound (w : World) : Type 0 where
  once : (a : String) → times a w.connection.pending + times_answered a w.connection.answers ≤ 1
  known :
      (a : String)
      → contains w.used a ≡ false
      → times a w.connection.pending + times_answered a w.connection.answers ≡ 0
  own : All IsOwn w.connection.answers

enter_request-IsSound :
    (id : String) (w : World)
    → contains w.used id ≡ false
    → IsSound w
    → IsSound record { connection = enter_request id w.connection; used = id ∷ w.used }
unfolding enter_request times contains
enter_request-IsSound id w h v = record {
  once = λ a. ground (arith, v.once a, v.known id h, eq_iff id a);
  known = λ a n. ground (arith, n, v.known a, eq_iff id a);
  own = v.own;
}

leave_request-IsSound :
    (id : String) (w : World) → IsSound w → IsSound (moved w (leave_request id w.connection))
unfolding leave_request
leave_request-IsSound id w v = record {
  once = λ a. ground (arith, v.once a, times-discard id a w.connection.pending);
  known = λ a n. ground (arith, v.known a n, times-discard id a w.connection.pending);
  own = v.own;
}

closed_answers-IsOwn : (ids : List String) → All IsOwn (closed_answers ids)
closed_answers-IsOwn [] = tt
closed_answers-IsOwn (x ∷ xs) = (refl, closed_answers-IsOwn xs)

fail_pending-IsSound : (w : World) → IsSound w → IsSound (moved w (fail_pending w.connection))
unfolding fail_pending times
fail_pending-IsSound w v = record {
  once = λ a. omega (
    arith,
    v.once a,
    times_answered-append a w.connection.answers (closed_answers w.connection.pending),
    times_answered-closed_answers a w.connection.pending,
  );
  known = λ a n. omega (
    arith,
    v.known a n,
    times_answered-append a w.connection.answers (closed_answers w.connection.pending),
    times_answered-closed_answers a w.connection.pending,
  );
  own =
      All-append IsOwn w.connection.answers (closed_answers w.connection.pending) v.own
        (closed_answers-IsOwn w.connection.pending);
}

dispatch_response-IsSound :
    (m : Message) (w : World) → IsSound w → IsSound (moved w (dispatch_response m w.connection))
unfolding dispatch_response times_answered
dispatch_response-IsSound m w v = elim (Bool-cases (contains w.connection.pending (text_of m.id))) [
  | inr e ↦ rw (e, dispatch_response) v
  | inl e ↦
      rw (e, dispatch_response)
        record {
          once = λ a. ground (
            arith,
            v.once a,
            times-discard (text_of m.id) a w.connection.pending,
            times-contains (text_of m.id) w.connection.pending e,
            times_answered-append a w.connection.answers ((text_of m.id, replied m) ∷ []),
            eq_iff (text_of m.id) a,
          );
          known = λ a n. ground (
            arith,
            v.known a n,
            times-discard (text_of m.id) a w.connection.pending,
            times-contains (text_of m.id) w.connection.pending e,
            times_answered-append a w.connection.answers ((text_of m.id, replied m) ∷ []),
            eq_iff (text_of m.id) a,
          );
          own =
              All-append IsOwn w.connection.answers ((text_of m.id, replied m) ∷ []) v.own
                (refl, tt);
        }
]

-- An operation that touches neither the table nor the answers.
kept-IsSound :
    (w : World) (c : Connection)
    → c.pending ≡ w.connection.pending
    → c.answers ≡ w.connection.answers
    → IsSound w
    → IsSound (moved w c)
kept-IsSound w c p q v = record {
  once = λ a. rw (p, q) (v.once a);
  known = λ a n. rw (p, q) (v.known a n);
  own = rw q v.own;
}

receive-IsSound : (m : Message) (w : World) → IsSound w → IsSound (moved w (receive m w.connection))
unfolding receive
receive-IsSound m w v = elim (Option-cases m.method) [
  | inl e ↦ rw (e, receive) (dispatch_response-IsSound m w v)
  | inr (x, e) ↦
      rw (e, receive)
        (kept-IsSound w (dispatch_request m w.connection) (ground arith) (ground arith) v)
]

end_reading-IsSound : (w : World) → IsSound w → IsSound (moved w (end_reading w.connection))
unfolding end_reading
end_reading-IsSound w v =
    kept-IsSound (moved w (fail_pending (record (w.connection) { closed = true })))
      (end_reading w.connection) refl refl
      (fail_pending-IsSound (moved w (record (w.connection) { closed = true }))
        (kept-IsSound w (record (w.connection) { closed = true }) refl refl v))

close-IsSound : (w : World) → IsSound w → IsSound (moved w (close w.connection))
unfolding close end_reading
close-IsSound w v = elim (Bool-cases w.connection.closed) [
  | inl e ↦ kept-IsSound w (close w.connection) (ground (arith, e)) (ground (arith, e)) v
  | inr e ↦
      kept-IsSound (moved w (end_reading w.connection)) (close w.connection) (ground (arith, e))
        (ground (arith, e)) (end_reading-IsSound w v)
]

Step-IsSound : {w w' : World} → Step w w' → IsSound w → IsSound w'
unfolding register_handler work_off
Step-IsSound {w} (registers method ordered) v =
    kept-IsSound w (register_handler method ordered w.connection) refl refl v
Step-IsSound {w} (enters id h) v = enter_request-IsSound id w h v
Step-IsSound {w} (leaves id) v = leave_request-IsSound id w v
Step-IsSound {w} (receives m) v = receive-IsSound m w v
Step-IsSound {w} closes v = close-IsSound w v
Step-IsSound {w} reading_ends v = end_reading-IsSound w v
Step-IsSound {w} works v = kept-IsSound w (work_off w.connection) (ground arith) (ground arith) v

Reachable-IsSound : {w : World} → Reachable w → IsSound w
unfolding new_connection times times_answered
Reachable-IsSound new = record { once = λ a. omega arith; known = λ a n. refl; own = tt }
Reachable-IsSound (next r s) = Step-IsSound s (Reachable-IsSound r)

-- In every reachable state of a connection whose requests have different ids, each request was
-- answered at most once, and not while it still waits in the table; and every message that was given
-- as an answer bears the id of the request that it was given to.
pub answered_once :
    (w : World) (a : String)
    → Reachable w
    → (times a w.connection.pending + times_answered a w.connection.answers ≤ 1)
      × All IsOwn w.connection.answers
answered_once w a r = let v = Reachable-IsSound r in (v.once a, v.own)
