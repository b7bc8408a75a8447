-- ===== src/Parsers/Claude/Opened.antt =====
-- The calls that a claude transcript opens, read off its records (`_enqueue_tool_uses` of
-- src/toolbench/parsers.py).
use tool_benchmarks.Base.{◌≡◌, refl, String, Bool, Option, none, some}
use tool_benchmarks.Base.{List, [], ◌∷◌, ◌++◌, arith, string_eq}
use tool_benchmarks.Base.Dict.{Dict}
use tool_benchmarks.Json.{Json, arr, Items, nil, cons, Fields, get}
use tool_benchmarks.Outcome.{Result, ok, err}
use tool_benchmarks.Parsers.Pending.{PendingCall}
use tool_benchmarks.Parsers.Turns.{Turns, track_turn}
use tool_benchmarks.Parsers.Weights.{insert_all}
use tool_benchmarks.Parsers.Claude.{
  Variant, Flags, message_get, open_block, enqueue, enqueue_blocks, enqueue_tool_uses,
}

-- The turn key that an entry's calls are tagged with; it does not depend on the turns so far.
abbrev pub key_of : Result (Option String × Turns) → Option String
key_of (ok tracked) = tracked.0
key_of (err e) = none

unfoldable pub entry_turn : Flags → Fields → Option String
entry_turn flags entry =
    let message = get "message" entry in
    key_of (track_turn flags.track_turns [] entry message (message_get "content" message))

pub entry_turn_lem :
    (b : Bool) (turns : Turns) (entry : Fields) (message content : Json) (t : Option String × Turns)
    → track_turn b turns entry message content ≡ ok t
    → key_of (track_turn b [] entry message content) ≡ t.0
unfolding track_turn
entry_turn_lem b turns entry message content t h = ground arith

module _ (v : Variant) (flags : Flags) where
  abbrev pub prepend :
      Option (String × PendingCall) → Dict String PendingCall → Dict String PendingCall
  prepend none calls = calls
  prepend (some call) calls = call ∷ calls

  -- The calls that the `tool_use` blocks of an entry open, in order.
  unfoldable pub opened_blocks : Fields → Json → Option String → Items → Dict String PendingCall
  opened_blocks entry message turn nil = []
  opened_blocks entry message turn (cons block blocks) =
      prepend (open_block v flags entry message turn block)
        (opened_blocks entry message turn blocks)

  unfoldable pub opened_content : Fields → Json → Option String → Json → Dict String PendingCall
  opened_content entry message turn (arr blocks) = opened_blocks entry message turn blocks
  opened_content entry message turn _ = []

  unfoldable pub opened_entry : Fields → Option String → Dict String PendingCall
  opened_entry entry turn =
      let message = get "message" entry in
      opened_content entry message turn (message_get "content" message)

  -- The calls that a transcript opens, in order, with their ids.
  unfoldable pub opened_calls : List Fields → Dict String PendingCall
  unfolding opened_entry opened_content opened_blocks entry_turn
  opened_calls [] = []
  opened_calls (entry ∷ entries) =
      opened_entry entry (entry_turn flags entry) ++ opened_calls entries

  pub enqueue_blocks-eq :
      (entry : Fields) (message : Json) (turn : Option String) (blocks : Items)
      (pending : Dict String PendingCall)
      → enqueue_blocks v flags entry message turn blocks pending
        ≡ insert_all (opened_blocks entry message turn blocks) pending
  unfolding enqueue_blocks opened_blocks
  enqueue_blocks-eq entry message turn nil pending = refl
  enqueue_blocks-eq entry message turn (cons block blocks) pending =
      opened (open_block v flags entry message turn block)
        (λ p. enqueue_blocks-eq entry message turn blocks p)
    where
      opened :
          (o : Option (String × PendingCall))
          → ((p : Dict String PendingCall)
              → enqueue_blocks v flags entry message turn blocks p
                ≡ insert_all (opened_blocks entry message turn blocks) p)
          → enqueue_blocks v flags entry message turn blocks
              (enqueue v flags entry message turn o pending)
            ≡ insert_all (prepend o (opened_blocks entry message turn blocks)) pending
      opened none ih = ih pending
      opened (some (id, call)) ih = ih _

  pub enqueue_tool_uses-eq :
      (entry : Fields) (message content : Json) (turn : Option String)
      (pending : Dict String PendingCall)
      → enqueue_tool_uses v flags entry message turn content pending
        ≡ insert_all (opened_content entry message turn content) pending
  unfolding enqueue_tool_uses opened_content
  enqueue_tool_uses-eq entry message (arr blocks) turn pending =
      enqueue_blocks-eq entry message turn blocks pending
  enqueue_tool_uses-eq entry message _ turn pending = refl
