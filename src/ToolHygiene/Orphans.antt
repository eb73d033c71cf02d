-- ===== src/ToolHygiene/Orphans.antt =====
-- What no complaint means: every result answers a call of an earlier message.
use ciallo_ms_365_open_ai_pr.Prelude.{
  ◌≡◌, refl, ap, sym, ◌∙◌, Bool, true, not, ◌&&◌, List, [], ◌∷◌, ◌++◌, arith, contains,
  append_assoc, append-nil,
}
use ciallo_ms_365_open_ai_pr.Prelude.Text.{Text, text_key, is_empty}
use ciallo_ms_365_open_ai_pr.ToolHygiene.{
  Message, declared_call_ids, answered_ids, judge, orphans_from, orphan_tool_results,
}

-- The ids that any of the messages declares.
unfoldable pub declared_by : List Message → List Text
declared_by [] = []
declared_by (m ∷ messages) = declared_call_ids m ++ declared_by messages

-- Every answered id is there and known.
unfoldable pub all_known : List Text → List (Text × Text) → Bool
all_known known [] = true
all_known known ((i, field) ∷ answered) =
    not (is_empty i) && contains i known && all_known known answered

judge-all_known :
    (known : List Text) (answered : List (Text × Text))
    → is_empty (judge known answered) ≡ all_known known answered
unfolding judge all_known
judge-all_known known [] = refl
judge-all_known known ((i, field) ∷ answered) = ground (arith, judge-all_known known answered)

-- Every message's results, judged by the calls of the messages before it alone.
unfoldable pub well_answered : List Message → List Message → Bool
well_answered before [] = true
well_answered before (m ∷ messages) =
    all_known (declared_by before) (answered_ids m) && well_answered (before ++ m ∷ []) messages

is_empty-append {ℓ} :
    {A : Type ℓ} (xs ys : List A) → is_empty (xs ++ ys) ≡ (is_empty xs && is_empty ys)
is_empty-append [] ys = refl
is_empty-append (x ∷ xs) ys = refl

declared_by-snoc :
    (before : List Message) (m : Message)
    → declared_by (before ++ m ∷ []) ≡ declared_by before ++ declared_call_ids m
unfolding declared_by
declared_by-snoc [] m = append-nil (declared_call_ids m)
declared_by-snoc (x ∷ before) m =
    ap (λ (ids : List Text). declared_call_ids x ++ ids) (declared_by-snoc before m)
    ∙ sym (append_assoc (declared_call_ids x) (declared_by before) (declared_call_ids m))

orphans_from-well_answered :
    (before messages : List Message)
    → is_empty (orphans_from (declared_by before) messages) ≡ well_answered before messages
unfolding orphans_from well_answered
orphans_from-well_answered before [] = refl
orphans_from-well_answered before (m ∷ messages) =
    let later = orphans_from-well_answered (before ++ m ∷ []) messages in
    is_empty-append (judge (declared_by before) (answered_ids m)) _
    ∙ ap
        (λ (b : Bool).
          b && is_empty (orphans_from (declared_by before ++ declared_call_ids m) messages))
        (judge-all_known (declared_by before) (answered_ids m))
    ∙ ap (λ (b : Bool). all_known (declared_by before) (answered_ids m) && b)
        (ap (λ (ids : List Text). is_empty (orphans_from ids messages))
            (sym (declared_by-snoc before m))
          ∙ later)

-- There is no complaint exactly if every tool result of every message has an id, and one that a
-- message before it declares.
pub orphan_tool_results-well_answered :
    (messages : List Message) → is_empty (orphan_tool_results messages) ≡ well_answered [] messages
unfolding orphan_tool_results declared_by
orphan_tool_results-well_answered messages = orphans_from-well_answered [] messages
