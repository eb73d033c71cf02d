-- ===== src/Reasoning/Collect.antt =====
-- What the collector holds of each item.
use ciallo_ms_365_open_ai_pr.Prelude.{
  ◌≡◌, refl, sym, ◌∙◌, ap, inl, inr, List, [], ◌∷◌, ◌++◌, append_assoc, append-nil, arith,
  if◌then◌else◌, ◌==◌, Bool-cases,
}
use ciallo_ms_365_open_ai_pr.Prelude.Text.{Text, text_key}
use ciallo_ms_365_open_ai_pr.Dict.{Dict, put, get-put}
use ciallo_ms_365_open_ai_pr.Reasoning.{ReasoningDelta, Collector, collected, add}

unfoldable pub add_all : List ReasoningDelta → Collector → Collector
add_all [] c = c
add_all (delta ∷ deltas) c = add_all deltas (add delta c).1

-- The texts of one item's deltas, one after the other.
unfoldable pub texts : Text → List ReasoningDelta → Text
texts id [] = []
texts id (delta ∷ deltas) =
    let rest = texts id deltas in if delta.item_id == id then delta.text ++ rest else rest

collected-put :
    (id j text : Text) (items : Dict Text Text)
    → collected id (put j text items) ≡ (if j == id then text else collected id items)
unfolding collected
collected-put id j text items = ground (arith, get-put j id text items)

-- Of each item the collector holds what it held and then the item's deltas, in order.
pub collected-add_all :
    (id : Text) (deltas : List ReasoningDelta) (c : Collector)
    → collected id (add_all deltas c).items ≡ collected id c.items ++ texts id deltas
unfolding add_all texts add
collected-add_all id [] c = sym (append-nil (collected id c.items))
collected-add_all id (delta ∷ deltas) c = elim (Bool-cases (delta.item_id == id)) [
  | inl same ↦ rw same (
      collected-add_all id deltas (add delta c).1
      ∙ ap (λ (x : Text). x ++ texts id deltas)
          (collected-put id delta.item_id (collected delta.item_id c.items ++ delta.text) c.items
            ∙ rw same refl
            ∙ ap (λ (x : Text). collected x c.items ++ delta.text)
                ((text_key.same_iff delta.item_id id).0 same))
      ∙ append_assoc (collected id c.items) delta.text (texts id deltas))
  | inr other ↦ rw other (
      collected-add_all id deltas (add delta c).1
      ∙ ap (λ (x : Text). x ++ texts id deltas)
          (collected-put id delta.item_id (collected delta.item_id c.items ++ delta.text) c.items
            ∙ rw other refl))
]
