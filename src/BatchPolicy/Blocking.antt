-- ===== src/BatchPolicy/Blocking.antt =====
-- Which calls of a batch the root policy blocks.
use ypi.Prelude.{
  ◌≡◌, refl, ◌∙◌, sym, subst, inl, inr, Bool, true, false, some, List, [], ◌∷◌, Text, text_eq,
  text_eq_refl, eq_of_text_eq, All, any, any_intro, Elem, if◌then◌else◌, ◌||◌, arith, Bool-cases,
  Option-cases,
}
use ypi.BatchPolicy.{
  ToolCall, is_read_only, starts_implementer, set_blocked, block_calls, Context, on_message_end,
  find_blocked, delete_blocked, on_tool_call,
}

-- Whether the map has the key.
abbrev pub is_blocked : Text → List (Text × Text) → Bool
is_blocked id [] = false
is_blocked id ((k, v) ∷ blocked) = text_eq k id || is_blocked id blocked

find_blocked-is_blocked :
    (id : Text) (blocked : List (Text × Text))
    → is_blocked id blocked ≡ true
    → (tool : Text) × (find_blocked id blocked ≡ some tool)
unfolding find_blocked
find_blocked-is_blocked id [] h = absurd (cc)
find_blocked-is_blocked id ((k, v) ∷ blocked) h = elim (Bool-cases (text_eq k id)) [
  | inl same ↦ (v, rw same refl)
  | inr other ↦ rw other (find_blocked-is_blocked id blocked (ground arith))
]

set_blocked_self :
    (id tool : Text) (blocked : List (Text × Text))
    → is_blocked id (set_blocked id tool blocked) ≡ true
unfolding set_blocked
set_blocked_self id tool [] = ground (arith, text_eq_refl id)
set_blocked_self id tool ((k, v) ∷ blocked) = ground (arith, set_blocked_self id tool blocked)

set_blocked-old :
    (id other tool : Text) (blocked : List (Text × Text))
    → is_blocked id blocked ≡ true
    → is_blocked id (set_blocked other tool blocked) ≡ true
unfolding set_blocked
set_blocked-old id other tool [] h = absurd (cc)
set_blocked-old id other tool ((k, v) ∷ blocked) h =
    ground (arith, set_blocked-old id other tool blocked)

block_calls-old :
    (id : Text) (calls : List ToolCall) (blocked : List (Text × Text))
    → is_blocked id blocked ≡ true
    → is_blocked id (block_calls calls blocked) ≡ true
unfolding block_calls
block_calls-old id [] blocked h = h
block_calls-old id (call ∷ calls) blocked h =
    block_calls-old id calls _ (ground (arith, set_blocked-old id call.id call.tool blocked))

block_calls-Elem :
    (call : ToolCall) (calls : List ToolCall) (blocked : List (Text × Text))
    → Elem call calls
    → is_read_only call.tool ≡ false
    → is_blocked call.id (block_calls calls blocked) ≡ true
unfolding block_calls
block_calls-Elem call [] blocked m h = absurd m
block_calls-Elem call (c ∷ calls) blocked (inr m) h = block_calls-Elem call calls _ m h
block_calls-Elem call (c ∷ calls) blocked (inl e) h = block_calls-old call.id calls _ (
    subst
      (λ d.
        is_blocked call.id
          (if is_read_only d.tool then blocked else set_blocked d.id d.tool blocked)
        ≡ true)
      e (rw h (set_blocked_self call.id call.tool blocked)))

on_message_end-Elem :
    (c : Context) (calls : List ToolCall) (before : List (Text × Text)) (call : ToolCall)
    → c.assistant ≡ true
    → c.at_root ≡ true
    → c.implement_root ≡ false
    → any starts_implementer calls ≡ true
    → Elem call calls
    → is_read_only call.tool ≡ false
    → is_blocked call.id (on_message_end c calls before) ≡ true
unfolding on_message_end
on_message_end-Elem c calls before call a r i s n w =
    rw (a, r, i, s, on_message_end) (block_calls-Elem call calls [] n w)

on_tool_call-blocked :
    (id : Text) (blocked : List (Text × Text))
    → is_blocked id blocked ≡ true
    → (tool : Text) × ((on_tool_call id blocked).0 ≡ some tool)
unfolding on_tool_call
on_tool_call-blocked id blocked h = elim (Option-cases (find_blocked id blocked)) [
  | inr (tool, found) ↦ (tool, rw (found, on_tool_call) refl)
  | inl missing ↦ absurd (cc (sym missing ∙ (find_blocked-is_blocked id blocked h).1))
]

find_blocked-delete_blocked :
    (id other : Text) (blocked : List (Text × Text))
    → text_eq other id ≡ false
    → is_blocked id blocked ≡ true
    → is_blocked id (delete_blocked other blocked) ≡ true
unfolding delete_blocked
find_blocked-delete_blocked id other [] differs h = absurd (cc)
find_blocked-delete_blocked id other ((k, v) ∷ blocked) differs h =
    elim (Bool-cases (text_eq k other)) [
      | inl gone ↦
          let apart : text_eq k id ≡ false =
            subst (λ t. text_eq t id ≡ false) (sym (eq_of_text_eq k other gone)) differs in
          rw gone (find_blocked-delete_blocked id other blocked differs (rw apart at h))
      | inr stays ↦ elim (Bool-cases (text_eq k id)) [
        | inl here ↦ rw stays (rw here refl)
        | inr there ↦
            rw stays
              (rw there (find_blocked-delete_blocked id other blocked differs (rw there at h)))
      ]
    ]

on_tool_call-other :
    (id other : Text) (blocked : List (Text × Text))
    → text_eq other id ≡ false
    → is_blocked id blocked ≡ true
    → is_blocked id (on_tool_call other blocked).1 ≡ true
unfolding on_tool_call
on_tool_call-other id other blocked differs h = elim (Option-cases (find_blocked other blocked)) [
  | inr (tool, found) ↦
      rw (found, on_tool_call) (find_blocked-delete_blocked id other blocked differs h)
  | inl missing ↦ rw (missing, on_tool_call) h
]

-- The map after some calls have come up.
abbrev pub after_calls : List Text → List (Text × Text) → List (Text × Text)
after_calls [] blocked = blocked
after_calls (id ∷ ids) blocked = after_calls ids (on_tool_call id blocked).1

after_calls-blocked :
    (id : Text) (others : List Text) (blocked : List (Text × Text))
    → All (λ other. text_eq other id ≡ false) others
    → is_blocked id blocked ≡ true
    → is_blocked id (after_calls others blocked) ≡ true
after_calls-blocked id [] blocked none_else h = h
after_calls-blocked id (other ∷ others) blocked (differs, rest) h =
    after_calls-blocked id others _ rest (on_tool_call-other id other blocked differs h)

-- At the root, in a message that starts an implementing child, every call of a tool that is not
-- read-only is refused when it comes up for the first time, whatever other calls came up before.
pub on_tool_call_blocks :
    (c : Context) (calls : List ToolCall) (before : List (Text × Text))
    (implementer call : ToolCall) (others : List Text)
    → c.assistant ≡ true
    → c.at_root ≡ true
    → c.implement_root ≡ false
    → Elem implementer calls
    → starts_implementer implementer ≡ true
    → Elem call calls
    → is_read_only call.tool ≡ false
    → All (λ other. text_eq other call.id ≡ false) others
    → (tool : Text) × ((on_tool_call call.id (after_calls others (on_message_end c calls before))).0
        ≡ some tool)
on_tool_call_blocks c calls before implementer call others a r i m s n w apart =
    on_tool_call-blocked call.id (after_calls others (on_message_end c calls before)) (
      after_calls-blocked call.id others (on_message_end c calls before) apart (
        on_message_end-Elem c calls before call a r i
          (any_intro starts_implementer calls implementer m s) n w))
