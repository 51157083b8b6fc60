-- ===== src/BatchPolicy/Tests.antt =====
-- A batch with an implementing child and a shell command.
use ypi.Prelude.{◌≡◌, refl, inl, inr, true, false, none, some, List, [], ◌∷◌, codes, Text, text_eq}
use ypi.BatchPolicy.{
  ToolCall, Context, is_read_only, starts_implementer, on_message_end, on_tool_call,
}
use ypi.BatchPolicy.Blocking.{after_calls, on_tool_call_blocks}

abbrev root : Context
root = record { assistant = true; at_root = true; implement_root = false }

abbrev child : ToolCall
child = record { id = codes "c1"; tool = codes "rlm_query"; mode = some (codes "implement") }

abbrev shell : ToolCall
shell = record { id = codes "c2"; tool = codes "bash"; mode = none }

abbrev writer : ToolCall
writer = record { id = codes "c3"; tool = codes "write"; mode = none }

abbrev batch : List ToolCall
batch = child ∷ writer ∷ shell ∷ []

on_tool_call_blocks_example :
    (tool : Text) × ((on_tool_call
        (codes "c2")
        (after_calls (codes "c1" ∷ codes "c3" ∷ []) (on_message_end root batch []))).0
      ≡ some tool)
unfolding starts_implementer is_read_only text_eq
on_tool_call_blocks_example =
    on_tool_call_blocks root batch [] child shell (codes "c1" ∷ codes "c3" ∷ []) refl refl refl
      (inl refl) refl (inr (inr (inl refl))) refl (refl, (refl, tt))
