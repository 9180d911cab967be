-- ===== src/Bsp/Index.antt =====
-- The ticket index of drivers/bsp_india/mapping.py against a search of the tickets in their order.
use voyagent.Prelude.{
  ◌≡◌, sym, ◌∙◌, Option, none, some, List, [], ◌∷◌, if◌then◌else◌, ◌=?◌, pair_key, if_elim, is_some,
}
use voyagent.Prelude.Text.{Text, text_key}
use voyagent.Prelude.Dict.{
  Dict, lookup, setdefault, or_else, or_else-none, lookup-setdefault, IsDict, insert-IsDict,
}
use voyagent.Bsp.{Ticket, normalised_ticket_key, ticket_index_from, ticket_index}

-- The first ticket of a key.
abbrev pub first_with : Text × Text → List Ticket → Option Ticket
first_with key [] = none
first_with key (t ∷ ts) =
    let rest = first_with key ts in
    if normalised_ticket_key t.number t.issuing_airline =? key then some t else rest

ticket_index_from-lookup :
    (key : Text × Text) (tickets : List Ticket) (index : Dict (Text × Text) Ticket)
    → lookup key (ticket_index_from index tickets)
      ≡ or_else (lookup key index) (first_with key tickets)
unfolding ticket_index_from
ticket_index_from-lookup key [] index = sym (or_else-none (lookup key index))
ticket_index_from-lookup key (t ∷ ts) index =
    let k = normalised_ticket_key t.number t.issuing_airline in
    ticket_index_from-lookup key ts (setdefault k t index)
    ∙ lookup-setdefault k key t (first_with key ts) index

ticket_index_from-IsDict :
    (tickets : List Ticket) (index : Dict (Text × Text) Ticket)
    → IsDict index
    → IsDict (ticket_index_from index tickets)
unfolding ticket_index_from
ticket_index_from-IsDict [] index h = h
ticket_index_from-IsDict (t ∷ ts) index h =
    let k = normalised_ticket_key t.number t.issuing_airline in
    ticket_index_from-IsDict ts (setdefault k t index)
      (if_elim (is_some (lookup k index)) IsDict (λ there. h) (λ absent. insert-IsDict k t index h))

-- The index gives for a key the first of the tickets that normalise to it, and holds one entry for
-- each key only: later duplicates are dropped, and do not show up in it at all.
pub ticket_index-lookup :
    (key : Text × Text) (tickets : List Ticket)
    → (lookup key (ticket_index tickets) ≡ first_with key tickets) × IsDict (ticket_index tickets)
ticket_index-lookup key tickets =
    (ticket_index_from-lookup key tickets [], ticket_index_from-IsDict tickets [] tt)
