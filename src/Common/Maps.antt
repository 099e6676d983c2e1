-- ===== src/Common/Maps.antt =====
-- A std::unordered_map from strings: its entries, in the order of their insertion.
use text.Mathlib.Text.{◌==◌}
use text.Mathlib.TextPositions.{eq_refl}
use Prim.Native.String.{String}
use mathlib.Core.List.{List, [], ◌∷◌}
use mathlib.Core.Option.{Option, none, some}
use mathlib.Core.Path.{◌≡◌, ap, sym, subst, ◌∙◌}
use mathlib.Core.Logic.{inl, inr}
use mod_audio_stream.Common.Tests.{if◌then◌else◌, if-true, if-false, Bool-cases}
use mod_audio_stream.Common.Lists.{All}
use mod_audio_stream.Common.Outcome.{some_inj}

module _ {V : Type 0} where
  -- m.find(id), m[id] = ..., and m.erase(id).
  abbrev pub find : String → List (String × V) → Option V
  find id [] = none
  find id ((k, c) ∷ r) = let rest = find id r in if k == id then some c else rest

  abbrev pub assign : String → V → List (String × V) → List (String × V)
  assign id c [] = (id, c) ∷ []
  assign id c ((k, d) ∷ r) =
      let rest = assign id c r in if k == id then (k, c) ∷ r else (k, d) ∷ rest

  abbrev pub erase : String → List (String × V) → List (String × V)
  erase id [] = []
  erase id ((k, d) ∷ r) = let rest = erase id r in if k == id then r else (k, d) ∷ rest

  pub find-assign : (id : String) (c : V) (r : List (String × V)) → find id (assign id c r) ≡ some c
  find-assign id c [] = if-true _ _ (eq_refl id)
  find-assign id c ((k, d) ∷ r) = elim (Bool-cases (k == id)) [
    | inl same ↦ rw same (if-true _ _ same)
    | inr other ↦ rw other (if-false _ _ other ∙ find-assign id c r)
  ]

  pub erase-assign :
      (id : String) (c : V) (r : List (String × V))
      → find id r ≡ none
      → find id (erase id (assign id c r)) ≡ none
  erase-assign id c [] e = ap (find id) (if-true _ _ (eq_refl id))
  erase-assign id c ((k, d) ∷ r) e = elim (Bool-cases (k == id)) [
    | inl same ↦ cc (sym (if-true (some d) (find id r) same) ∙ e)
    | inr other ↦ rw other (
        ap (find id) (if-false _ _ other)
        ∙ (if-false _ _ other ∙ erase-assign id c r (sym (if-false _ _ other) ∙ e)))
  ]

-- A predicate that holds of every value.
abbrev pub AllValues {κ} : {V : Type 0} → (V → Type κ) → List (String × V) → Type κ
AllValues {V = V} P = All (λ (e : String × V). P e.1)

module _ {κ} {V : Type 0} (P : V → Type κ) where
  pub find-AllValues :
      (id : String) (r : List (String × V)) (c : V) → AllValues P r → find id r ≡ some c → P c
  find-AllValues id [] c h e = cc
  find-AllValues id ((k, d) ∷ r) c h e = elim (Bool-cases (k == id)) [
    | inl same ↦ subst P (some_inj (sym (if-true _ _ same) ∙ e)) h.0
    | inr other ↦ find-AllValues id r c h.1 (sym (if-false _ _ other) ∙ e)
  ]

  pub assign-AllValues :
      (id : String) (c : V) (r : List (String × V))
      → P c
      → AllValues P r
      → AllValues P (assign id c r)
  assign-AllValues id c [] p h = (p, tt)
  assign-AllValues id c ((k, d) ∷ r) p h = elim (Bool-cases (k == id)) [
    | inl same ↦ subst (AllValues P) (sym (if-true _ _ same)) (p, h.1)
    | inr other ↦
        subst (AllValues P) (sym (if-false _ _ other)) (h.0, assign-AllValues id c r p h.1)
  ]

  pub erase-AllValues :
      (id : String) (r : List (String × V)) → AllValues P r → AllValues P (erase id r)
  erase-AllValues id [] h = tt
  erase-AllValues id ((k, d) ∷ r) h = elim (Bool-cases (k == id)) [
    | inl same ↦ subst (AllValues P) (sym (if-true _ _ same)) h.1
    | inr other ↦ subst (AllValues P) (sym (if-false _ _ other)) (h.0, erase-AllValues id r h.1)
  ]
