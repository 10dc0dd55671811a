-- ===== src/Prelude/Gives.antt =====
-- What every result of a step that may have none satisfies.
use network_structure.Prelude.{
  ◌≡◌, refl, subst, Bool, true, false, Option, none, some, arith, if◌then◌else◌, ◌>>=◌, from_some,
}
use network_structure.Prelude.{
  ◌≡◌, refl, subst, Bool, true, false, Option, none, some, arith, if◌then◌else◌, ◌>>=◌, from_some,
}

module _ {A : Type 0} where
  -- The result, where there is one, satisfies the predicate.
  pub record Gives (P : A → Type 0) (o : Option A) : Type 0 where
    pub given : (v : A) → o ≡ some v → P v

  module _ (P : A → Type 0) where
    pub none-Gives : Gives P none
    none-Gives = record { given = λ v e. ground (arith, e) }

    pub some-Gives : (a : A) → P a → Gives P (some a)
    some-Gives a p = record { given = λ v e. subst P (from_some e) p }

    pub if-Gives :
        (b : Bool) (x y : Option A)
        → (b ≡ true → Gives P x)
        → (b ≡ false → Gives P y)
        → Gives P (if b then x else y)
    if-Gives true x y f g = f refl
    if-Gives false x y f g = g refl

    pub if-holds : (b : Bool) (x y : A) → P x → P y → P (if b then x else y)
    if-holds true x y p q = p
    if-holds false x y p q = q

pub bind-Gives :
    {A B : Type 0} (P : A → Type 0) (Q : B → Type 0) (m : Option B) (f : B → Option A)
    → Gives Q m
    → ((b : B) → Q b → Gives P (f b))
    → Gives P (m >>= f)
bind-Gives P Q none f g h = none-Gives P
bind-Gives P Q (some b) f g h = h b (g.given b refl)
