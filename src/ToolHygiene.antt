-- ===== src/ToolHygiene.antt =====
-- tool_hygiene.py: the two deduplications and the search for orphan results. `_field` reads a dict
-- or a model alike, so a call is its fields; `none` stands for a missing value or one that is no
-- string. A reason is a constructor with the values that the message formats.
pub mod Dedupe
pub mod Orphans
use ciallo_ms_365_open_ai_pr.Prelude.{
  Bool, true, false, not, ◌&&◌, ◌||◌, Option, none, some, List, [], ◌∷◌, ◌++◌, if◌then◌else◌, ◌==◌,
  Key, contains,
}
use ciallo_ms_365_open_ai_pr.Prelude.Text.{Text, codes, text_key, strip, is_empty}

pub record ToolFunction : Type 0 where
  pub name : Option Text
  pub arguments : Option Text

pub record ToolCall : Type 0 where
  pub id : Option Text
  pub function : Option ToolFunction

pub data Reason : Type 0 where
  no_id : Text → Reason
  repeated_id : Text → Text → Reason
  repeated_payload : Text → Reason
  result_unnamed : Text → Reason
  result_orphan : Text → Text → Reason

-- `value.strip() if isinstance(value, str) else ""`
unfoldable pub stripped : Option Text → Text
stripped none = []
stripped (some value) = strip value

unfoldable pub tool_call_id : ToolCall → Text
tool_call_id call = stripped call.id

unfoldable pub text_or_empty : Option Text → Text
text_or_empty none = []
text_or_empty (some value) = value

unfoldable pub function_name : Option ToolFunction → Option Text
function_name none = none
function_name (some f) = f.name

unfoldable pub function_arguments : Option ToolFunction → Option Text
function_arguments none = none
function_arguments (some f) = f.arguments

unfoldable pub tool_call_label : ToolCall → Text
tool_call_label call =
    let name = text_or_empty (function_name call.function) in
    if is_empty name then codes "(未命名)" else name

-- The loop of `dedupe_tool_call_ids`.
unfoldable pub dedupe_ids : List Text → List ToolCall → List ToolCall × List Reason
dedupe_ids seen [] = ([], [])
dedupe_ids seen (call ∷ calls) =
    let same = dedupe_ids seen calls in
    let more = dedupe_ids (tool_call_id call ∷ seen) calls in
    if is_empty (tool_call_id call)
    then (same.0, no_id (tool_call_label call) ∷ same.1)
    else if contains (tool_call_id call) seen
    then (same.0, repeated_id (tool_call_label call) (tool_call_id call) ∷ same.1)
    else (call ∷ more.0, more.1)

unfoldable pub dedupe_tool_call_ids : List ToolCall → List ToolCall × List Reason
dedupe_tool_call_ids calls = dedupe_ids [] calls

unfoldable pub tool_call_payload : ToolCall → Text × Text
tool_call_payload call =
    (text_or_empty (function_name call.function), text_or_empty (function_arguments call.function))

unfoldable pub same_payload : Text × Text → Text × Text → Bool
same_payload (n, a) (m, b) = (n == m) && (a == b)

-- `payload in seen`
unfoldable pub payload_seen : Text × Text → List (Text × Text) → Bool
payload_seen p [] = false
payload_seen p (q ∷ seen) = same_payload q p || payload_seen p seen

-- The loop of `dedupe_tool_call_payloads`.
unfoldable pub dedupe_payloads : List (Text × Text) → List ToolCall → List ToolCall × List Reason
dedupe_payloads seen [] = ([], [])
dedupe_payloads seen (call ∷ calls) =
    let same = dedupe_payloads seen calls in
    let more = dedupe_payloads (tool_call_payload call ∷ seen) calls in
    if payload_seen (tool_call_payload call) seen
    then (same.0, repeated_payload (tool_call_label call) ∷ same.1)
    else (call ∷ more.0, more.1)

unfoldable pub dedupe_tool_call_payloads : List ToolCall → List ToolCall × List Reason
dedupe_tool_call_payloads calls = dedupe_payloads [] calls

-- A content block, by its type.
pub data Block : Type 0 where
  tool_use : Option Text → Block
  tool_result : Option Text → Block
  other_block : Block

-- `content` is the list without its `None`s, empty when the content is no list.
pub record Message : Type 0 where
  pub role : Option Text
  pub tool_call_id_field : Option Text
  pub tool_calls : List ToolCall
  pub content : List Block

unfoldable pub nonempty_id : Text → List Text → List Text
nonempty_id i ids = if is_empty i then ids else i ∷ ids

unfoldable pub call_ids : List ToolCall → List Text → List Text
call_ids [] ids = ids
call_ids (call ∷ calls) ids = nonempty_id (tool_call_id call) (call_ids calls ids)

unfoldable pub use_ids : List Block → List Text
use_ids [] = []
use_ids (tool_use i ∷ blocks) = nonempty_id (stripped i) (use_ids blocks)
use_ids (tool_result i ∷ blocks) = use_ids blocks
use_ids (other_block ∷ blocks) = use_ids blocks

unfoldable pub declared_call_ids : Message → List Text
declared_call_ids m = call_ids m.tool_calls (use_ids m.content)

unfoldable pub result_ids : List Block → List (Text × Text)
result_ids [] = []
result_ids (tool_result i ∷ blocks) = (stripped i, codes "tool_use_id") ∷ result_ids blocks
result_ids (tool_use i ∷ blocks) = result_ids blocks
result_ids (other_block ∷ blocks) = result_ids blocks

unfoldable pub is_tool : Option Text → Bool
is_tool none = false
is_tool (some role) = role == codes "tool"

unfoldable pub answered_ids : Message → List (Text × Text)
answered_ids m =
    if is_tool m.role
    then (stripped m.tool_call_id_field, codes "tool_call_id") ∷ result_ids m.content
    else result_ids m.content

unfoldable pub judge : List Text → List (Text × Text) → List Reason
judge known [] = []
judge known ((i, field) ∷ answered) =
    let rest = judge known answered in
    if is_empty i
    then result_unnamed field ∷ rest
    else if not (contains i known)
    then result_orphan field i ∷ rest
    else rest

-- The loop of `orphan_tool_results`, with the ids that are known.
unfoldable pub orphans_from : List Text → List Message → List Reason
orphans_from known [] = []
orphans_from known (m ∷ messages) =
    judge known (answered_ids m) ++ orphans_from (known ++ declared_call_ids m) messages

unfoldable pub orphan_tool_results : List Message → List Reason
orphan_tool_results messages = orphans_from [] messages
