-- ===== src/Parsers/Join.antt =====
-- The join of results to pending calls in src/toolbench/parsers.py: `_join_results`, `_result_id` and
-- `_result_payload`.
use tool_benchmarks.Base.{String, false, Option, none, some, List, [], ◌∷◌, ◌++◌}
use tool_benchmarks.Base.{string_eq, if◌then◌else◌}
use tool_benchmarks.Base.Dict.{Dict, lookup, erase}
use tool_benchmarks.Json.{
  Json, null, obj, arr, Items, nil, cons, Fields, get, has, truthy, as_str, is_text,
}
use tool_benchmarks.Transcript.{ToolCall, result_len}
use tool_benchmarks.Parsers.Pending.{Origin, PendingCall, Finish, finish}

-- `isinstance(block, dict) and block.get("type") == kind`, as the dict
unfoldable pub block_of_type : String → Json → Option Fields
block_of_type kind (obj block) = if is_text kind (get "type" block) then some block else none
block_of_type kind _ = none

abbrev cons_block : Option Fields → List (Option Fields) → List (Option Fields)
cons_block none blocks = blocks
cons_block (some block) blocks = some block ∷ blocks

listed_blocks : Items → List (Option Fields)
listed_blocks nil = []
listed_blocks (cons block blocks) =
    cons_block (block_of_type "tool_result" block) (listed_blocks blocks)

content_blocks : Json → List (Option Fields)
content_blocks (arr blocks) = listed_blocks blocks
content_blocks _ = []

-- `none` stands for the top-level `toolUseID` shape.
or_top_level : Fields → List (Option Fields) → List (Option Fields)
or_top_level entry [] = if has "toolUseID" entry then none ∷ [] else []
or_top_level entry blocks = blocks

unfoldable pub result_blocks : Fields → Json → List (Option Fields)
unfolding or_top_level content_blocks listed_blocks block_of_type
result_blocks entry content = or_top_level entry (content_blocks content)

abbrev or_else : Option String → Option String → Option String
or_else none k = k
or_else (some k) _ = some k

unfoldable pub result_id : Fields → Option Fields → Option String
result_id entry none = as_str (get "toolUseID" entry)
result_id entry (some block) =
    or_else (as_str (get "tool_use_id" block)) (as_str (get "toolUseID" entry))

top_level_payload : Fields → Json × Option String
top_level_payload entry =
    if has "toolUseResult" entry
    then (get "toolUseResult" entry, some "top_level")
    else (null, none)

unfoldable pub result_payload : Fields → Option Fields → Json × Option String
unfolding top_level_payload
result_payload entry none = top_level_payload entry
result_payload entry (some block) =
    if has "content" block
    then (get "content" block, some "block_local")
    else top_level_payload entry

result_error : Option Fields → Option String
result_error none = none
result_error (some block) = if truthy (get "is_error" block) then some "tool_error" else none

-- What a result block says of the call that it finishes.
unfoldable pub block_finish : Fields → Option Fields → Finish
unfolding result_error
block_finish entry block =
    let (payload, source) = result_payload entry block in
    record {
      output_chars = result_len payload;
      error = result_error block;
      result_source = source;
      no_result = false;
    }

abbrev pub Joined : Type 0
Joined = List ToolCall × Dict String PendingCall

abbrev pub pop_call :
    Origin → Finish → String → Option PendingCall → Dict String PendingCall → Joined
pop_call o f id none pending = ([], pending)
pop_call o f id (some call) pending = (finish o call f ∷ [], erase id pending)

unfoldable pub join_id : Origin → Finish → Option String → Dict String PendingCall → Joined
join_id o f none pending = ([], pending)
join_id o f (some id) pending = pop_call o f id (lookup id pending) pending

unfoldable pub join_blocks :
    Origin → Fields → List (Option Fields) → Dict String PendingCall → Joined
join_blocks o entry [] pending = ([], pending)
join_blocks o entry (block ∷ blocks) pending =
    let (calls, pending') = join_id o (block_finish entry block) (result_id entry block) pending in
    let (more, pending'') = join_blocks o entry blocks pending' in (calls ++ more, pending'')

unfoldable pub join_results : Origin → Fields → Json → Dict String PendingCall → Joined
join_results o entry content pending = join_blocks o entry (result_blocks entry content) pending
