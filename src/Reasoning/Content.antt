-- ===== src/Reasoning/Content.antt =====
-- The answer text that a block stream carries.
use ciallo_ms_365_open_ai_pr.Prelude.{
  ℕ, ◌≡◌, refl, sym, ◌∙◌, ap, inl, inr, Option, none, some, List, [], ◌∷◌, ◌++◌, append_assoc,
  append-nil, if◌then◌else◌, Bool-cases,
}
use ciallo_ms_365_open_ai_pr.Prelude.Text.{Text, is_empty}
use ciallo_ms_365_open_ai_pr.Reasoning.{
  Kind, thinking_block, text_block, same_kind, BlockEvent, block_start, tool_start, thinking_delta,
  text_delta, signature_delta, input_delta, block_stop, ContentStream, closing, close, start,
  reasoning_event, text_event, tool_event,
}
use ciallo_ms_365_open_ai_pr.Reasoning.Protocol.{
  Call, reasoning_call, text_call, tool_call, close_call, step, run,
}

-- The text deltas, one after the other.
unfoldable pub text_of : List BlockEvent → Text
text_of [] = []
text_of (text_delta i t ∷ events) = t ++ text_of events
text_of (block_start i k ∷ events) = text_of events
text_of (tool_start i id name ∷ events) = text_of events
text_of (thinking_delta i t ∷ events) = text_of events
text_of (signature_delta i t ∷ events) = text_of events
text_of (input_delta i t ∷ events) = text_of events
text_of (block_stop i ∷ events) = text_of events

-- The texts of the text calls, one after the other.
unfoldable pub said : List Call → Text
said [] = []
said (text_call t ∷ calls) = t ++ said calls
said (reasoning_call delta ∷ calls) = said calls
said (tool_call id name input ∷ calls) = said calls
said (close_call ∷ calls) = said calls

text_of-append : (xs ys : List BlockEvent) → text_of (xs ++ ys) ≡ text_of xs ++ text_of ys
unfolding text_of
text_of-append [] ys = refl
text_of-append (text_delta i t ∷ xs) ys =
    ap (λ (x : Text). t ++ x) (text_of-append xs ys)
    ∙ sym (append_assoc t (text_of xs) (text_of ys))
text_of-append (block_start i k ∷ xs) ys = text_of-append xs ys
text_of-append (tool_start i id name ∷ xs) ys = text_of-append xs ys
text_of-append (thinking_delta i t ∷ xs) ys = text_of-append xs ys
text_of-append (signature_delta i t ∷ xs) ys = text_of-append xs ys
text_of-append (input_delta i t ∷ xs) ys = text_of-append xs ys
text_of-append (block_stop i ∷ xs) ys = text_of-append xs ys

closing-text : (i : ℕ) (k : Option Kind) → text_of (closing i k) ≡ []
unfolding closing text_of
closing-text i none = refl
closing-text i (some thinking_block) = refl
closing-text i (some text_block) = refl

start-text : (k : Kind) (s : ContentStream) → text_of (start k s).0 ≡ []
unfolding start close
start-text k s = elim (Bool-cases (same_kind k s.kind)) [
  | inl same ↦ rw same (unfold text_of in refl)
  | inr other ↦ rw other (
      text_of-append (closing s.index s.kind) (block_start s.next_index k ∷ [])
      ∙ rw (closing-text s.index s.kind) (unfold text_of in refl))
]

text_delta-text : (i : ℕ) (t : Text) → text_of (if is_empty t then [] else text_delta i t ∷ []) ≡ t
unfolding text_of
text_delta-text i [] = refl
text_delta-text i (c ∷ t) = append-nil (c ∷ t)

step-said : (c : Call) (s : ContentStream) → text_of (step c s).0 ≡ said (c ∷ [])
unfolding step reasoning_event text_event tool_event close said
step-said (reasoning_call delta) s =
    text_of-append (start thinking_block s).0 _
    ∙ rw (start-text thinking_block s) (unfold text_of in refl)
step-said (text_call t) s =
    text_of-append (start text_block s).0 _
    ∙ rw (start-text text_block s) (text_delta-text (start text_block s).1.index t)
    ∙ sym (append-nil t)
step-said (tool_call id name input) s =
    text_of-append (closing s.index s.kind) _
    ∙ rw (closing-text s.index s.kind) (unfold text_of in refl)
step-said close_call s = closing-text s.index s.kind

said-cons : (c : Call) (calls : List Call) → said (c ∷ calls) ≡ said (c ∷ []) ++ said calls
unfolding said
said-cons (reasoning_call delta) calls = refl
said-cons (text_call t) calls = ap (λ (x : Text). x ++ said calls) (sym (append-nil t))
said-cons (tool_call id name input) calls = refl
said-cons close_call calls = refl

-- The text deltas of a stream carry exactly the texts of its text calls, in order.
pub text_of-run : (calls : List Call) (s : ContentStream) → text_of (run calls s).0 ≡ said calls
unfolding run
text_of-run [] s = unfold text_of said in refl
text_of-run (c ∷ calls) s =
    text_of-append (step c s).0 (run calls (step c s).1).0
    ∙ ap (λ (x : Text). x ++ text_of (run calls (step c s).1).0) (step-said c s)
    ∙ ap (λ (x : Text). said (c ∷ []) ++ x) (text_of-run calls (step c s).1)
    ∙ sym (said-cons c calls)
