-- ===== src/Tools/Executor.antt =====
-- `ToolExecutor`. Whether a handler ends within its time limit is the environment's choice, so
-- `timely` is a parameter; a handler that ends in time ends as it does when called.
use Prim.Native.String.{String, ◌++◌ as ◌<>◌}
use forge_lock_free.Base.{
  ℕ, ◌≡◌, refl, Bool, true, false, Option, none, some, List, [], ◌∷◌, map, if◌then◌else◌, arith,
}
use forge_lock_free.Chat.{ToolCall, ToolResult}
use forge_lock_free.Tools.Registry.{Ended, returned, threw, RegisteredTool, Registry, find}

unfoldable pub result_of : String → Option Ended → ToolResult
result_of id none = record { tool_call_id = id; output = "Tool timed out"; is_error = true }
result_of id (some (returned text)) = record { tool_call_id = id; output = text; is_error = false }
result_of id (some (threw what)) = record {
  tool_call_id = id;
  output = "Tool error: " <> what;
  is_error = true;
}

unfoldable pub unknown : String → String → ToolResult
unknown id name = record { tool_call_id = id; output = "Unknown tool: " <> name; is_error = true }

-- `PendingCall`: the future is invalid (`none`) for a tool that is not registered.
pub record Pending : Type 0 where
  pub call_id : String
  pub name : String
  pub future : Option (Option Ended)

module _ {Json : Type 0} (registry : Registry Json) (timely : ToolCall → ℕ → Bool) where
  -- `wait_for` on the future of a submitted handler; `none` is a timeout.
  unfoldable pub wait_for : ToolCall → RegisteredTool Json → Option Ended
  wait_for call tool =
      if timely call tool.spec.timeout_ms then some (tool.handler call.arguments_json) else none

  unfoldable pub execute : ToolCall → ToolResult
  execute call = elim (find call.name registry) [
    | none ↦ unknown call.id call.name
    | some tool ↦ result_of call.id (wait_for call tool)
  ]

  -- The first loop of `execute_batch`.
  unfoldable pub launch : List ToolCall → List Pending
  launch [] = []
  launch (call ∷ calls) =
      record {
        call_id = call.id;
        name = call.name;
        future = elim (find call.name registry) [
          | none ↦ none
          | some tool ↦ some (wait_for call tool)
        ];
      }
      ∷ launch calls

  -- The second loop.
  unfoldable pub collect : List Pending → List ToolResult
  collect [] = []
  collect (p ∷ ps) =
      elim p.future [ none ↦ unknown p.call_id p.name | some r ↦ result_of p.call_id r ]
      ∷ collect ps

  unfoldable pub execute_batch : List ToolCall → List ToolResult
  execute_batch calls = collect (launch calls)

  -- A batch gives each call the result that it has alone, in the order of the calls: one result for
  -- each call, with its id, also where other tools are unknown, fail or run out of time.
  pub execute_batch-eq-map : (calls : List ToolCall) → execute_batch calls ≡ map execute calls
  unfolding execute_batch launch collect execute
  execute_batch-eq-map [] = refl
  execute_batch-eq-map (call ∷ calls) = ground (arith, execute_batch-eq-map calls)

  -- A result carries the id of its call; and it is no error exactly when the tool is registered and its
  -- handler returned within the time limit.
  pub execute-is_error :
      (call : ToolCall)
      → ((execute call).tool_call_id ≡ call.id)
        × ((execute call).is_error ≡ elim (find call.name registry) [
          | none ↦ true
          | some tool ↦ elim (wait_for call tool) [
            | none ↦ true
            | some (returned text) ↦ false
            | some (threw what) ↦ true
          ]
        ])
  unfolding execute unknown result_of
  execute-is_error call = ground arith
