-- ===== src/BatchPolicy.antt =====
-- extensions/ypi/internal/root-batch-policy.ts: what may run beside implementing children.
pub mod Blocking
mod Tests
use ypi.Prelude.{
  Bool, false, Option, none, some, List, [], ◌∷◌, Text, codes, text_eq, any, if◌then◌else◌, not,
  ◌&&◌, ◌||◌,
}

-- A tool call of an assistant's message; `mode` is the argument of that name, if it is a text.
pub record ToolCall : Type 0 where
  pub id : Text
  pub tool : Text
  pub mode : Option Text

-- `ROOT_READ_ONLY_TOOLS`.
unfoldable pub is_read_only : Text → Bool
is_read_only t =
    any (text_eq t)
      (codes "read" ∷ codes "grep" ∷ codes "find" ∷ codes "ls" ∷ codes "rlm_query" ∷ [])

abbrev is_mode : Text → Option Text → Bool
is_mode t none = false
is_mode t (some u) = text_eq u t

unfoldable pub starts_implementer : ToolCall → Bool
starts_implementer call =
    text_eq call.tool (codes "rlm_query") && is_mode (codes "implement") call.mode

-- The keys of `blocked`; the reason that is stored names the tool of the last call with that key.
unfoldable pub set_blocked : Text → Text → List (Text × Text) → List (Text × Text)
set_blocked id tool [] = (id, tool) ∷ []
set_blocked id tool ((k, v) ∷ blocked) =
    let rest = set_blocked id tool blocked in
    if text_eq k id then (k, tool) ∷ blocked else (k, v) ∷ rest

unfoldable pub block_calls : List ToolCall → List (Text × Text) → List (Text × Text)
unfolding set_blocked
block_calls [] blocked = blocked
block_calls (call ∷ calls) blocked =
    block_calls calls
      (if is_read_only call.tool then blocked else set_blocked call.id call.tool blocked)

-- `event.message.role !== "assistant"`, `RLM_DEPTH || "0"` and `YPI_IMPLEMENT_ROOT`.
pub record Context : Type 0 where
  pub assistant : Bool
  pub at_root : Bool
  pub implement_root : Bool

unfoldable pub on_message_end : Context → List ToolCall → List (Text × Text) → List (Text × Text)
on_message_end c calls blocked =
    if not c.assistant
    then blocked
    else if not c.at_root || c.implement_root
    then []
    else if any starts_implementer calls
    then block_calls calls []
    else []

unfoldable pub find_blocked : Text → List (Text × Text) → Option Text
find_blocked id [] = none
find_blocked id ((k, v) ∷ blocked) = if text_eq k id then some v else find_blocked id blocked

unfoldable pub delete_blocked : Text → List (Text × Text) → List (Text × Text)
delete_blocked id [] = []
delete_blocked id ((k, v) ∷ blocked) =
    let rest = delete_blocked id blocked in if text_eq k id then rest else (k, v) ∷ rest

-- The tool that the answer names where the call is blocked, and the map after it.
unfoldable pub on_tool_call : Text → List (Text × Text) → Option Text × List (Text × Text)
on_tool_call id blocked = elim (find_blocked id blocked) [
  | none ↦ (none, blocked)
  | some tool ↦ (some tool, delete_blocked id blocked)
]

unfoldable pub on_turn_end : List (Text × Text) → List (Text × Text)
on_turn_end blocked = []
