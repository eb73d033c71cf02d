-- ===== src/Reasoning.antt =====
-- reasoning.py and reasoning_stream.py: `ReasoningCollector`, the Anthropic block stream and the
-- Responses item stream. An event's JSON is a constructor with the fields that the code sets;
-- `json.dumps` of a tool's input is an argument. A block's index before the first block, -1 in the
-- source, is never read and stands as 0 here.
pub mod Collect
pub mod Protocol
pub mod Content
use ciallo_ms_365_open_ai_pr.Prelude.{
  ℕ, ◌+◌, Bool, true, false, not, ◌&&◌, Option, none, some, List, [], ◌∷◌, ◌++◌, if◌then◌else◌,
  ◌==◌,
}
use ciallo_ms_365_open_ai_pr.Prelude.Text.{Text, text_key, is_empty}
use ciallo_ms_365_open_ai_pr.Dict.{Dict, get, put}

pub record ReasoningDelta : Type 0 where
  pub item_id : Text
  pub text : Text

pub record Collector : Type 0 where
  pub items : Dict Text Text
  pub last_item_id : Option Text

abbrev pub collector : Collector
collector = record { items = []; last_item_id = none }

-- `"\n\n" if self._last_item_id is not None and event.item_id != self._last_item_id else ""`
unfoldable pub separator : Text → Option Text → Text
separator id none = []
separator id (some last) = if id == last then [] else 10 ∷ 10 ∷ []

-- `self.items.get(item_id, "")`
unfoldable pub collected : Text → Dict Text Text → Text
collected id items = elim (get id items) [ none ↦ [] | some text ↦ text ]

-- `ReasoningCollector.add`
unfoldable pub add : ReasoningDelta → Collector → Text × Collector
add delta c = (
  separator delta.item_id c.last_item_id ++ delta.text,
  record {
    items = put delta.item_id (collected delta.item_id c.items ++ delta.text) c.items;
    last_item_id = some delta.item_id;
  },
)

pub data Kind : Type 0 where
  thinking_block : Kind
  text_block : Kind

unfoldable pub same_kind : Kind → Option Kind → Bool
same_kind k none = false
same_kind thinking_block (some thinking_block) = true
same_kind thinking_block (some text_block) = false
same_kind text_block (some thinking_block) = false
same_kind text_block (some text_block) = true

pub data BlockEvent : Type 0 where
  block_start : ℕ → Kind → BlockEvent
  tool_start : ℕ → Text → Text → BlockEvent
  thinking_delta : ℕ → Text → BlockEvent
  text_delta : ℕ → Text → BlockEvent
  signature_delta : ℕ → Text → BlockEvent
  input_delta : ℕ → Text → BlockEvent
  block_stop : ℕ → BlockEvent

-- `AnthropicContentStream`
pub record ContentStream : Type 0 where
  pub next_index : ℕ
  pub index : ℕ
  pub kind : Option Kind
  pub reasoning : Collector

abbrev pub content_stream : ContentStream
content_stream = record { next_index = 0; index = 0; kind = none; reasoning = collector }

unfoldable pub closing : ℕ → Option Kind → List BlockEvent
closing index none = []
closing index (some thinking_block) = signature_delta index [] ∷ block_stop index ∷ []
closing index (some text_block) = block_stop index ∷ []

unfoldable pub close : ContentStream → List BlockEvent × ContentStream
close s = (closing s.index s.kind, record s { kind = none })

unfoldable pub start : Kind → ContentStream → List BlockEvent × ContentStream
start k s = if same_kind k s.kind then ([], s) else (
  (close s).0 ++ block_start s.next_index k ∷ [],
  record s { kind = some k; index = s.next_index; next_index = s.next_index + 1 },
)

unfoldable pub reasoning_event : ReasoningDelta → ContentStream → List BlockEvent × ContentStream
reasoning_event delta s =
    let opened = start thinking_block s in
    let added = add delta opened.1.reasoning in
    (
      opened.0 ++ thinking_delta opened.1.index added.0 ∷ [],
      record opened.1 { reasoning = added.1 },
    )

unfoldable pub text_event : Text → ContentStream → List BlockEvent × ContentStream
text_event text s =
    let opened = start text_block s in
    (opened.0 ++ (if is_empty text then [] else text_delta opened.1.index text ∷ []), opened.1)

-- `input` is the dumped input of the block.
unfoldable pub tool_event : Text → Text → Text → ContentStream → List BlockEvent × ContentStream
tool_event id name input s =
    let closed = close s in
    let i = closed.1.next_index in
    (
      closed.0 ++ tool_start i id name ∷ input_delta i input ∷ block_stop i ∷ [],
      record closed.1 { next_index = i + 1 },
    )
