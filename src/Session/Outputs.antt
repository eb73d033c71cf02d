-- ===== src/Session/Outputs.antt =====
-- Which tool outputs the latest response admits.
use ciallo_ms_365_open_ai_pr.Prelude.{
  ℕ, ◌≡◌, refl, ap, sym, ◌∙◌, inl, inr, Bool, true, ◌&&◌, ◌||◌, Option, some, List, [], ◌∷◌, ◌++◌,
  arith, ◌==◌, contains, contains-append, same_refl, Bool-cases,
}
use ciallo_ms_365_open_ai_pr.Prelude.Text.{Text, text_key}
use ciallo_ms_365_open_ai_pr.Dict.{get, put, get-put, get-pop}
use ciallo_ms_365_open_ai_pr.Session.{
  Session, unique_from, all_in, same_set, is_latest, expire_overflow, put_context, issue, touched,
  record_response, allows_response_outputs,
}
use ciallo_ms_365_open_ai_pr.Session.Ring.{Fits, whole, dropped, issue-Fits}
use ciallo_ms_365_open_ai_pr.Session.Valid.{IsValid}
use ciallo_ms_365_open_ai_pr.Session.Linear.{issue-latest}

contains-unique_from :
    (a : Text) (seen xs : List Text)
    → contains a (unique_from seen xs) ≡ (contains a seen || contains a xs)
unfolding unique_from contains
contains-unique_from a seen [] = ground arith
contains-unique_from a seen (x ∷ xs) = elim (Bool-cases (contains x seen)) [
  | inl e ↦ rw e (contains-unique_from a seen xs ∙ ground (arith, e, text_key.same_iff x a))
  | inr e ↦
      rw e (
        contains-unique_from a (seen ++ x ∷ []) xs
        ∙ ground (arith, contains-append a seen (x ∷ [])))
]

all_in-same :
    (xs ys zs : List Text)
    → ((a : Text) → contains a ys ≡ contains a zs)
    → all_in xs ys ≡ all_in xs zs
unfolding all_in
all_in-same [] ys zs h = refl
all_in-same (x ∷ xs) ys zs h = ground (arith, h x, all_in-same xs ys zs h)

all_in-contains :
    (xs ys : List Text) (a : Text)
    → all_in xs ys ≡ true
    → contains a xs ≡ true
    → contains a ys ≡ true
unfolding all_in contains
all_in-contains [] ys a h i = absurd (ground arith)
all_in-contains (x ∷ xs) ys a h i = ground (arith, text_key.same_iff x a, all_in-contains xs ys a)

contains-all_in :
    (xs ys : List Text)
    → ((a : Text) → contains a xs ≡ true → contains a ys ≡ true)
    → all_in xs ys ≡ true
unfolding all_in
contains-all_in [] ys h = refl
contains-all_in (x ∷ xs) ys h =
    let head = h x (unfold contains in ground (arith, same_refl x)) in
    let tail = contains-all_in xs ys (λ a i. h a (unfold contains in ground (arith, i))) in
    ground arith

all_in-left :
    (xs ys zs : List Text)
    → ((a : Text) → contains a xs ≡ contains a ys)
    → all_in xs zs ≡ all_in ys zs
all_in-left xs ys zs h =
    let there : all_in xs zs ≡ true → all_in ys zs ≡ true =
      λ e. contains-all_in ys zs (λ a i. all_in-contains xs zs a e (h a ∙ i)) in
    let back : all_in ys zs ≡ true → all_in xs zs ≡ true =
      λ e. contains-all_in xs zs (λ a i. all_in-contains ys zs a e (sym (h a) ∙ i)) in
    ground arith

same_set-unique_from :
    (ids calls : List Text) → same_set ids (unique_from [] calls) ≡ same_set ids calls
unfolding same_set contains
same_set-unique_from ids calls = ground (
  arith,
  all_in-same ids (unique_from [] calls) calls (λ a. contains-unique_from a [] calls),
  all_in-left (unique_from [] calls) calls ids (λ a. contains-unique_from a [] calls),
)

module _ {Context : Type 0} where
  get-issue :
      (id : Text) (calls : List Text) (ro : Bool) (c : Option Context) (s : Session Context)
      → IsValid s
      → get id (issue id calls ro c s).issued_calls ≡ some (unique_from [] calls)
  unfolding issue
  get-issue id calls ro c s v =
      go (issue-Fits id (unique_from [] calls) s.issued_calls t refl v.few)
    where
      t : Session Context
      t = record s {
        issued_calls = put id (unique_from [] calls) s.issued_calls;
        issued_read_only = put id ro s.issued_read_only;
        issued_contexts = put_context id c s.issued_contexts;
        latest = some id;
      }

      stored : get id t.issued_calls ≡ some (unique_from [] calls)
      stored = ground (arith, get-put id id (unique_from [] calls) s.issued_calls, same_refl id)

      go : Fits id t → get id (expire_overflow t).issued_calls ≡ some (unique_from [] calls)
      go (whole h e) = rw e stored
      go (dropped k ne h e) = rw e (ground (arith, get-pop k id t.issued_calls, stored))

  -- Right after a response was recorded, in a valid session, exactly its own call ids are admitted
  -- as outputs, as a set, and no ids under another response id.
  pub outputs-record_response :
      (now : ℕ) (id : Text) (calls : List Text) (ro : Bool) (c : Option Context)
      (s : Session Context) (j : Text) (ids : List Text)
      → IsValid s
      → allows_response_outputs j ids (record_response now id calls ro c s)
        ≡ (j == id && same_set ids calls)
  unfolding record_response touched allows_response_outputs is_latest
  outputs-record_response now id calls ro c s j ids v = elim (Bool-cases (j == id)) [
    | inl e ↦ ground (
      arith,
      ap (λ (x : Text). get x (issue id calls ro c s).issued_calls) ((text_key.same_iff j id).0 e),
      e,
      get-issue id calls ro c s v,
      issue-latest id calls ro c s,
      same_set-unique_from ids calls,
    )
    | inr e ↦ ground (arith, e, issue-latest id calls ro c s)
  ]
