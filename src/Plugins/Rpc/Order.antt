-- ===== src/Plugins/Rpc/Order.antt =====
-- Requests for ordered handlers are handled in the order in which they were read.
use mathlib.Core.List.{append_assoc, append-nil}
use nexus_n3_core.Prelude.{
  String, Option, none, some, List, [], ◌∷◌, ◌++◌, if◌then◌else◌, contains, ◌≡◌, refl, sym, ap, ◌∙◌,
  arith, Option-cases, inl, inr,
}
use nexus_n3_core.Plugins.Rpc.{Message, Connection, receive, work_off}

-- The reader reads a message, or the worker takes one from its queue.
pub data Act : Type 0 where
  reads : Message → Act
  works : Act

unfoldable pub acted : List Act → Connection → Connection
unfolding receive work_off
acted [] c = c
acted (reads m ∷ as') c = acted as' (receive m c)
acted (works ∷ as') c = acted as' (work_off c)

abbrev pub waiting : List (Option Message) → List Message
waiting [] = []
waiting (none ∷ ms) = waiting ms
waiting (some m ∷ ms) = m ∷ waiting ms

-- What the worker has handled, and then what waits for it.
abbrev pub in_turn : Connection → List Message
in_turn c = c.handled ++ waiting c.ordered_queue

-- The messages read that are for an ordered handler.
abbrev pub if_ordered : List String → Message → List Message
if_ordered methods m = elim m.method [
  | none ↦ []
  | some x ↦ if contains methods x then m ∷ [] else []
]

abbrev pub ordered_reads : List String → List Act → List Message
ordered_reads methods [] = []
ordered_reads methods (reads m ∷ as') = if_ordered methods m ++ ordered_reads methods as'
ordered_reads methods (works ∷ as') = ordered_reads methods as'

waiting-append : (xs ys : List (Option Message)) → waiting (xs ++ ys) ≡ waiting xs ++ waiting ys
waiting-append [] ys = refl
waiting-append (none ∷ xs) ys = waiting-append xs ys
waiting-append (some m ∷ xs) ys = ap (λ ms. m ∷ ms) (waiting-append xs ys)

in_turn-work_off : (c : Connection) → in_turn (work_off c) ≡ in_turn c
unfolding work_off
in_turn-work_off c = by_queue c.ordered_queue refl
  where
    by_queue :
        (ms : List (Option Message)) → c.ordered_queue ≡ ms → in_turn (work_off c) ≡ in_turn c
    by_queue [] e = ground (arith, e)
    by_queue (none ∷ ms) e = ground (arith, e)
    by_queue (some m ∷ ms) e = ground (arith, e, append_assoc c.handled (m ∷ []) (waiting ms))

in_turn-receive :
    (m : Message) (c : Connection)
    → in_turn (receive m c) ≡ in_turn c ++ if_ordered c.ordered_methods m
unfolding receive
in_turn-receive m c = elim (Option-cases m.method) [
  | inl e ↦ ground (arith, e, append-nil (in_turn c))
  | inr (x, e) ↦ ground (
    arith,
    e,
    append-nil (in_turn c),
    waiting-append c.ordered_queue (some m ∷ []),
    append_assoc c.handled (waiting c.ordered_queue) (m ∷ []),
  )
]

methods-receive : (m : Message) (c : Connection) → (receive m c).ordered_methods ≡ c.ordered_methods
unfolding receive
methods-receive m c = ground arith

methods-work_off : (c : Connection) → (work_off c).ordered_methods ≡ c.ordered_methods
unfolding work_off
methods-work_off c = ground arith

-- However the reading of messages and the work on them are interleaved, what the ordered worker has
-- handled and then what waits for it are the messages for ordered handlers in the order in which they
-- were read, after those of before: none is repeated, left out or overtaken. Marks that end the worker
-- are passed over in this list.
pub in_turn-acted :
    (acts : List Act) (c : Connection)
    → in_turn (acted acts c) ≡ in_turn c ++ ordered_reads c.ordered_methods acts
unfolding acted
in_turn-acted [] c = sym (append-nil (in_turn c))
in_turn-acted (reads m ∷ as') c =
    in_turn-acted as' (receive m c)
    ∙ ap (λ ms. in_turn (receive m c) ++ ordered_reads ms as') (methods-receive m c)
    ∙ ap (λ ts. ts ++ ordered_reads c.ordered_methods as') (in_turn-receive m c)
    ∙ append_assoc (in_turn c) (if_ordered c.ordered_methods m)
        (ordered_reads c.ordered_methods as')
in_turn-acted (works ∷ as') c =
    in_turn-acted as' (work_off c)
    ∙ ap (λ ms. in_turn (work_off c) ++ ordered_reads ms as') (methods-work_off c)
    ∙ ap (λ ts. ts ++ ordered_reads c.ordered_methods as') (in_turn-work_off c)
