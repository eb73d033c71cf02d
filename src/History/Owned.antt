-- ===== src/History/Owned.antt =====
-- The owners of an entry: one that was added stays, or there is no room for another one.
use ciallo_ms_365_open_ai_pr.Prelude.{
  ◌≡◌, refl, inl, inr, Bool, true, false, not, ◌||◌, none, List, [], ◌∷◌, ◌++◌, arith, All, ltb,
  length, ◌==◌, contains, same_refl, Bool-cases,
}
use ciallo_ms_365_open_ai_pr.Prelude.Text.{Text, text_key}
use ciallo_ms_365_open_ai_pr.Dict.{Dict, put_last, pop}
use ciallo_ms_365_open_ai_pr.History.{unique, add_owner}

-- `key` is an owner, or there is no room for another one.
unfoldable pub is_owner : Text → List Text → Bool
is_owner key owners = contains key owners || ltb 1 (length owners)

pub add_owner-is_owner :
    (key k : Text) (owners : List Text)
    → is_owner key owners ≡ true
    → is_owner key (add_owner k owners) ≡ true
unfolding is_owner add_owner contains
add_owner-is_owner key k [] h = ground arith
add_owner-is_owner key k (x ∷ []) h = ground arith
add_owner-is_owner key k (x ∷ y ∷ owners) h = ground arith

pub add_owner-owner : (key : Text) (owners : List Text) → is_owner key (add_owner key owners) ≡ true
unfolding is_owner add_owner contains
add_owner-owner key [] = ground (arith, same_refl key)
add_owner-owner key (x ∷ []) = ground (arith, same_refl key)
add_owner-owner key (x ∷ y ∷ owners) = ground arith

-- Two owners are no owner.
pub unique-two :
    (j k : Text) (owners : List Text)
    → (j == k) ≡ false
    → is_owner j owners ≡ true
    → is_owner k owners ≡ true
    → unique owners ≡ none
unfolding unique is_owner contains
unique-two j k [] h one two = refl
unique-two j k (x ∷ []) h one two = absurd (
    ground
      (arith, h, one, two, text_key.same_iff x j, text_key.same_iff x k, text_key.same_iff j k))
unique-two j k (x ∷ y ∷ owners) h one two = refl

-- What is stored under the entry has `key` for an owner.
unfoldable pub owned : Text → Text → Text × List Text → Bool
owned e key (f, owners) = not (f == e) || is_owner key owners

pub owned-owner :
    (e key : Text) (owners : List Text)
    → owned e key (e, owners) ≡ true
    → is_owner key owners ≡ true
unfolding owned
owned-owner e key owners h = ground (arith, h, same_refl e)

abbrev pub Owned : Text → Text → Dict Text (List Text) → Type 0
Owned e key entries = All (λ (x : Text × List Text). owned e key x ≡ true) entries

pop-Owned : (e key : Text) (entries : Dict Text (List Text)) → Owned e key (pop e entries)
unfolding pop owned
pop-Owned e key [] = tt
pop-Owned e key ((f, owners) ∷ entries) = elim (Bool-cases (f == e)) [
  | inl same ↦ rw same (pop-Owned e key entries)
  | inr other ↦ rw other (ground (arith, other), pop-Owned e key entries)
]

pub put_last-Owned :
    (e key : Text) (owners : List Text) (entries : Dict Text (List Text))
    → is_owner key owners ≡ true
    → Owned e key (put_last e owners entries)
unfolding put_last owned
put_last-Owned e key owners entries h = go (pop e entries) (pop-Owned e key entries)
  where
    go : (d : Dict Text (List Text)) → Owned e key d → Owned e key (d ++ (e, owners) ∷ [])
    go [] o = (ground arith, tt)
    go (x ∷ d) o = (o.0, go d o.1)
