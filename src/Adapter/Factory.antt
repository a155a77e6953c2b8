-- ===== src/Adapter/Factory.antt =====
-- src/adapter/adapter_factory.h and src/adapter/adapter_factory.cpp
use ai_switch.Base.{
  ℕ, ◌≡◌, refl, ◌⊎◌, inl, inr, true, false, List, [], ◌∷◌, ◌++◌, Option, none, some, Bytes, find,
  at_front, at_front-find, starts_with, if◌then◌else◌, All, length, Bool-cases, ap,
}
use ai_switch.Adapter.{Adapter}

unfoldable pub register_adapter : Adapter → List Adapter → List Adapter
register_adapter ai adapters = adapters ++ ai ∷ []

unfoldable pub count : List Adapter → ℕ
count = length

-- `none` is the null pointer.
unfoldable pub create : List Adapter → Bytes → Option Adapter
create [] model_name = none
create (ai ∷ adapters) model_name =
    if at_front (find ai.model_prefix model_name) then some ai else create adapters model_name

-- An adapter that is chosen.
pub record IsFirst (adapters : List Adapter) (model_name : Bytes) (ai : Adapter) : Type 0 where
  pub before : List Adapter
  pub after : List Adapter
  pub split : adapters ≡ before ++ ai ∷ after
  pub fits : starts_with model_name ai.model_prefix ≡ true
  pub none_before : All (λ (a : Adapter). starts_with model_name a.model_prefix ≡ false) before

abbrev pub FitsNone : Bytes → List Adapter → Type 0
FitsNone model_name = All (λ (a : Adapter). starts_with model_name a.model_prefix ≡ false)

-- The factory gives the adapter that was registered first among those whose prefix begins the
-- model's name, and none exactly if there is no such adapter.
pub create_cases :
    (adapters : List Adapter) (model_name : Bytes)
    → ((create adapters model_name ≡ none) × FitsNone model_name adapters)
      ⊎ ((ai : Adapter) × (create adapters model_name ≡ some ai) × IsFirst adapters model_name ai)
unfolding create
create_cases [] name = inl (refl, tt)
create_cases (a ∷ adapters) name = elim (Bool-cases (starts_with name a.model_prefix)) [
  | inl e ↦ inr (
    a,
    rw (at_front-find a.model_prefix name, e),
    record { before = []; after = adapters; split = refl; fits = e; none_before = tt },
  )
  | inr e ↦ elim (create_cases adapters name) [
    | inl (missing, no_fit) ↦ inl (rw (at_front-find a.model_prefix name, e) missing, (e, no_fit))
    | inr (ai, found, first) ↦ inr (
      ai,
      rw (at_front-find a.model_prefix name, e) found,
      record {
        before = a ∷ first.before;
        after = first.after;
        split = ap (λ r. a ∷ r) first.split;
        fits = first.fits;
        none_before = (e, first.none_before);
      },
    )
  ]
]
