-- ===== src/Logging/Tags.antt =====
-- The search of Logging/src/logging.cpp for a tag, and the list of the tags that stand between the
-- separators.
use network_structure.Prelude.{
  ℕ, zero, suc, ◌-◌, ◌≤◌, ◌<◌, ◌≡◌, refl, ap, ◌∙◌, subst, ◌⊎◌, inl, inr, Bool, true, false, not,
  ◌||◌, some, List, [], ◌∷◌, arith, ◌==◌, if◌then◌else◌, Bool-cases, length,
}
use network_structure.Logging.{cut, after_token, blocked, plus, same_string, skip, token}

unfoldable pub with_first : ℕ → List (List ℕ) → List (List ℕ)
with_first c [] = (c ∷ []) ∷ []
with_first c (f ∷ fs) = (c ∷ f) ∷ fs

-- What stands between the separators, the empty strings included.
unfoldable pub fields : List ℕ → List (List ℕ)
unfolding with_first
fields [] = [] ∷ []
fields (c ∷ s) = let fs = fields s in if c == plus then [] ∷ fs else with_first c fs

unfoldable pub is_among : List ℕ → List (List ℕ) → Bool
unfolding same_string
is_among tag [] = false
is_among tag (f ∷ fs) = same_string f tag || is_among tag fs

later : List ℕ → List (List ℕ)
unfolding fields
later [] = []
later (c ∷ s) = let r = later s in if c == plus then fields s else r

fields_lem : (s : List ℕ) → fields s ≡ token s ∷ later s
unfolding fields token later
fields_lem [] = refl
fields_lem (c ∷ s) = elim (Bool-cases (c == plus)) [
  | inl h ↦ rw h refl
  | inr h ↦ rw h (rw (fields_lem s) refl)
]

List-cases : (s : List ℕ) → (s ≡ []) ⊎ ((c : ℕ) × (t : List ℕ) × (s ≡ c ∷ t))
List-cases [] = inl refl
List-cases (c ∷ s) = inr (c, s, refl)

length-after_token : (s : List ℕ) → length (after_token s) ≤ length s - 1
unfolding after_token
length-after_token [] = omega arith
length-after_token (c ∷ s) = elim (Bool-cases (c == plus)) [
  | inl h ↦ rw h (omega arith)
  | inr h ↦ rw h (omega (arith, length-after_token s))
]

length-skip : (s : List ℕ) → length (skip s) ≤ length s
unfolding skip
length-skip [] = omega arith
length-skip (c ∷ s) = elim (Bool-cases (c == plus)) [
  | inl h ↦ rw h (omega (arith, length-skip s))
  | inr h ↦ rw h (omega arith)
]

if_not : (b d : Bool) → (if b then some false else some (not d)) ≡ some (not (b || d))
if_not true d = refl
if_not false d = refl

module _ (a : ℕ) (tag : List ℕ) where
  later-is_among :
      (s : List ℕ) → is_among (a ∷ tag) (later s) ≡ is_among (a ∷ tag) (fields (after_token s))
  unfolding is_among later after_token fields
  later-is_among [] = refl
  later-is_among (c ∷ s) = elim (Bool-cases (c == plus)) [
    | inl h ↦ rw h refl
    | inr h ↦ rw h (later-is_among s)
  ]

  skip-is_among :
      (s : List ℕ) → is_among (a ∷ tag) (fields s) ≡ is_among (a ∷ tag) (fields (skip s))
  unfolding is_among skip fields
  skip-is_among [] = refl
  skip-is_among (c ∷ s) = elim (Bool-cases (c == plus)) [
    | inl h ↦ rw h (skip-is_among s)
    | inr h ↦ rw h (rw h refl)
  ]

  token-is_among :
      (s : List ℕ)
      → is_among (a ∷ tag) (fields s)
        ≡ (same_string (token s) (a ∷ tag) || is_among (a ∷ tag) (fields (after_token s)))
  unfolding is_among
  token-is_among s =
      ap (is_among (a ∷ tag)) (fields_lem s)
      ∙ ap (λ t. same_string (token s) (a ∷ tag) || t) (later-is_among s)

  no_tag : is_among (a ∷ tag) (fields []) ≡ false
  unfolding is_among fields same_string
  no_tag = refl

  -- The search decides whether the tag stands between separators, as soon as it may take more
  -- tokens than the list has characters.
  pub blocked_lem :
      (fuel : ℕ) (s : List ℕ)
      → length s < fuel
      → blocked fuel (a ∷ tag) s ≡ some (not (is_among (a ∷ tag) (fields s)))
  unfolding blocked cut
  blocked_lem zero s h = absurd (omega arith)
  blocked_lem (suc fuel) s h = elim (List-cases (skip s)) [
    | inl e ↦
        let f = skip-is_among s ∙ ap (λ t. is_among (a ∷ tag) (fields t)) e ∙ no_tag in
        rw (blocked, e, f) refl
    | inr (c, t, e) ↦
        let f =
          skip-is_among s ∙ ap (λ u. is_among (a ∷ tag) (fields u)) e ∙ token-is_among (c ∷ t) in
        let r = after_token (c ∷ t) in
        let l = length-after_token (c ∷ t) in
        let k = length-skip s in
        let k1 : length (c ∷ t) ≤ length s = subst (λ u. length u ≤ length s) e k in
        let ih = blocked_lem fuel r (omega (arith, l, k1)) in
        rw (blocked, e, f, ih)
          (if_not (same_string (token (c ∷ t)) (a ∷ tag)) (is_among (a ∷ tag) (fields r)))
  ]
