-- ===== src/Chat.antt =====
-- app/chat.py: the pure helpers of the chat proxy.
use decyra_api.Common.{
  ℕ, ◌+◌, ◌*◌, Bool, true, false, not, ◌||◌, List, [], ◌∷◌, map, reverse, ◌==◌, nat_eq, list_eq,
  contains, if◌then◌else◌, keep_if, take,
}
use decyra_api.Common.Text.{Text, codes, lstrip, join, within}
use decyra_api.Pii.Placeholder.{take_while}
use decyra_api.Store.{Msg}

abbrev pub user : Text
user = codes "user"

abbrev pub system : Text
system = codes "system"

abbrev pub assistant : Text
assistant = codes "assistant"

-- Prices are per million tokens: the cost is counted in millionths of the price's unit, where the
-- source divides floats.
unfoldable pub compute_cost : ℕ → ℕ → ℕ → ℕ → ℕ
compute_cost prompt_tokens completion_tokens cost_input cost_output =
    prompt_tokens * cost_input + completion_tokens * cost_output

-- `text.strip()`
unfoldable pub strip : Text → Text
unfolding lstrip
strip s = reverse (lstrip (reverse (lstrip s)))

-- The characters at which `splitlines` ends a line.
unfoldable pub is_line_break : ℕ → Bool
is_line_break c = within 10 13 c || within 0x1c 0x1e c || c == 0x85 || within 0x2028 0x2029 c

-- `first_line[0].strip() if first_line else ""`
unfoldable pub first_line : Text → Text
unfolding strip take_while is_line_break
first_line content = strip (take_while (λ c. not (is_line_break c)) (strip content))

abbrev is_empty : Text → Bool
is_empty [] = true
is_empty (c ∷ s) = false

unfoldable pub derive_title : List Msg → Text
unfolding first_line
derive_title [] = codes "Neue Unterhaltung"
derive_title (m ∷ ms) =
    let rest = derive_title ms in
    if m.role == user
    then (if is_empty (first_line m.content) then rest else take 60 (first_line m.content))
    else rest

unfoldable pub audit_request_text : List Msg → Text
unfolding join
audit_request_text messages =
    join (codes "\n\n")
      (map (λ (m : Msg). m.content) (keep_if (λ (m : Msg). m.role == user) messages))

-- `_PERSISTABLE_ROLES`
abbrev pub persistable_roles : List Text
persistable_roles = system ∷ user ∷ assistant ∷ []

unfoldable pub persistable_messages : List Msg → List Msg
persistable_messages = keep_if (λ (m : Msg). contains persistable_roles m.role)
