-- ===== src/Prelude/Actions.antt =====
-- Code that changes a state and may raise: what was changed before the exception stays changed.
use mathlib.Core.Path.{◌≡◌, refl, ap}
use mathlib.Core.Logic.{◌⊎◌, inl, inr}
use mathlib.Core.Bool.{Bool, true, false}
use mathlib.Core.Option.{Option, none, some}
use yataverse_distribution.Prelude.Tests.{if◌then◌else◌}
use yataverse_distribution.Prelude.Raises.{Result, ok, err}

abbrev pub Action : Type 0 → Type 0 → Type 0 → Type 0
Action E S A = S → Result E A × S

module _ {E S : Type 0} where
  unfoldable pub give : {A : Type 0} → A → Action E S A
  give a s = (ok a, s)

  unfoldable pub raise : {A : Type 0} → E → Action E S A
  raise e s = (err e, s)

  -- The state now, and a change of it.
  unfoldable pub current : Action E S S
  current s = (ok s, s)

  unfoldable pub change : (S → S) → Action E S (Unit {0})
  change f s = (ok tt, f s)

  -- `if not b: raise e`
  unfoldable pub ensure : Bool → E → Action E S (Unit {0})
  ensure true e s = (ok tt, s)
  ensure false e s = (err e, s)

  -- A result that was computed without the state.
  unfoldable pub lift : {A : Type 0} → Result E A → Action E S A
  lift r s = (r, s)

module _ {E S A B : Type 0} where
  abbrev pub continue : Result E A × S → (A → Action E S B) → Result E B × S
  continue (ok a, s) f = f a s
  continue (err e, s) f = (err e, s)

  infixl 5 ◌>>=◌
  unfoldable pub ◌>>=◌ : Action E S A → (A → Action E S B) → Action E S B
  ◌>>=◌ m f s = continue (m s) f

  pub >>=-eq_ok :
      (m : Action E S A) (f : A → Action E S B) (s s'' : S) (b : B)
      → (m >>= f) s ≡ (ok b, s'')
      → (a : A) × (s' : S) × (m s ≡ (ok a, s')) × (f a s' ≡ (ok b, s''))
  unfolding ◌>>=◌
  >>=-eq_ok m f s s'' b h = go (m s) refl h
    where
      go :
          (r : Result E A × S)
          → m s ≡ r
          → continue r f ≡ (ok b, s'')
          → (a : A) × (s' : S) × (m s ≡ (ok a, s')) × (f a s' ≡ (ok b, s''))
      go (ok a, s') e h = (a, s', e, h)
      go (err x, s') e h = cc

module _ {E S A B : Type 0} where
  pub >>=-eq_err :
      (m : Action E S A) (f : A → Action E S B) (s s'' : S) (e : E)
      → (m >>= f) s ≡ (err e, s'')
      → (m s ≡ (err e, s'')) ⊎ ((a : A) × (s' : S) × (m s ≡ (ok a, s')) × (f a s' ≡ (err e, s'')))
  unfolding ◌>>=◌
  >>=-eq_err m f s s'' e h = go (m s) refl h
    where
      go :
          (r : Result E A × S)
          → m s ≡ r
          → continue r f ≡ (err e, s'')
          → (m s ≡ (err e, s''))
            ⊎ ((a : A) × (s' : S) × (m s ≡ (ok a, s')) × (f a s' ≡ (err e, s'')))
      go (ok a, s') p h = inr (a, s', p, h)
      go (err x, s') p h = inl (cc)

infixl 5 ◌>>◌
abbrev pub ◌>>◌ : {E S B : Type 0} → Action E S (Unit {0}) → Action E S B → Action E S B
m >> k = m >>= λ _. k

-- Whatever the action does and however it ends, this stays true of the state.
pub record Keeps {E S A : Type 0} (P : S → Type 0) (m : Action E S A) : Type 0 where
  pub at : (s : S) → P s → P (m s).1

module _ {E S : Type 0} (P : S → Type 0) where
  pub lift-Keeps : {A : Type 0} (r : Result E A) → Keeps P (lift {E = E} {S = S} r)
  unfolding lift
  lift-Keeps r = record { at = λ s p. p }

  pub give-Keeps : {A : Type 0} (a : A) → Keeps P (give {E = E} {S = S} a)
  unfolding give
  give-Keeps a = record { at = λ s p. p }

  pub raise-Keeps : {A : Type 0} (e : E) → Keeps P (raise {E = E} {S = S} {A = A} e)
  unfolding raise
  raise-Keeps e = record { at = λ s p. p }

  pub current-Keeps : Keeps P (current {E = E} {S = S})
  unfolding current
  current-Keeps = record { at = λ s p. p }

  pub ensure-Keeps : (b : Bool) (e : E) → Keeps P (ensure {E = E} {S = S} b e)
  unfolding ensure
  ensure-Keeps true e = record { at = λ s p. p }
  ensure-Keeps false e = record { at = λ s p. p }

  pub change-Keeps : (f : S → S) → ((s : S) → P s → P (f s)) → Keeps P (change {E = E} f)
  unfolding change
  change-Keeps f same = record { at = same }

  pub bind-Keeps :
      {A B : Type 0} (m : Action E S A) (f : A → Action E S B)
      → Keeps P m
      → ((a : A) → Keeps P (f a))
      → Keeps P (m >>= f)
  unfolding ◌>>=◌
  bind-Keeps {A} {B} m f first later = record { at = λ s p. go (m s) (first.at s p) }
    where
      go : (r : Result E A × S) → P r.1 → P (continue r f).1
      go (ok a, s) p = (later a).at s p
      go (err e, s) p = p

  pub if-Keeps :
      {A : Type 0} (b : Bool) (m n : Action E S A)
      → Keeps P m
      → Keeps P n
      → Keeps P (if b then m else n)
  if-Keeps true m n k l = k
  if-Keeps false m n k l = l

-- `try: m; except E as e: ...`: none, or the exception.
unfoldable pub attempt : {E S A : Type 0} → Action E S A → Action E S (Option E)
attempt m s = let (r, s') = m s in (elim r [ ok a ↦ ok none | err e ↦ ok (some e) ], s')

pub attempt-Keeps :
    {E S A : Type 0} (P : S → Type 0) (m : Action E S A) → Keeps P m → Keeps P (attempt m)
unfolding attempt
attempt-Keeps P m l = record { at = l.at }

pub ensure-eq_ok :
    {E S : Type 0} (b : Bool) (e : E) (s s' : S)
    → ensure b e s ≡ (ok tt, s')
    → (b ≡ true) × (s ≡ s')
unfolding ensure
ensure-eq_ok true e s s' h = (refl, ap (λ r. r.1) h)
ensure-eq_ok false e s s' h = cc

-- The branch that was taken.
pub if-eq :
    {E S A : Type 0} (b : Bool) (m n : Action E S A) (s : S) (r : Result E A × S)
    → (if b then m else n) s ≡ r
    → ((b ≡ true) × (m s ≡ r)) ⊎ ((b ≡ false) × (n s ≡ r))
if-eq true m n s r h = inl (refl, h)
if-eq false m n s r h = inr (refl, h)

pub give-eq_ok :
    {E S A : Type 0} (a b : A) (s s' : S)
    → ◌≡◌ {A = Result E A × S} (give a s) (ok b, s')
    → (a ≡ b) × (s ≡ s')
unfolding give
give-eq_ok a b s s' h = (cc, ap (λ r. r.1) h)

pub current-eq_ok :
    {E S : Type 0} (s now s' : S)
    → ◌≡◌ {A = Result E S × S} (current s) (ok now, s')
    → (s ≡ now) × (s ≡ s')
unfolding current
current-eq_ok s now s' h = (cc, ap (λ r. r.1) h)

pub lift-eq_ok :
    {E S A : Type 0} (r : Result E A) (s s' : S) (a : A)
    → ◌≡◌ {A = Result E A × S} (lift r s) (ok a, s')
    → r ≡ ok a
unfolding lift
lift-eq_ok r s s' a h = ap (λ p. p.0) h

-- The action, however it ends, and what follows it, if it does not raise: the first of them
-- keeps `K`.
pub then-at :
    {E S A B : Type 0} (K P : S → Type 0) (m : Action E S A) (f : A → Action E S B) (s : S)
    → Keeps K m
    → K s
    → ((s' : S) → K s' → P s')
    → ((a : A) (s' : S) → m s ≡ (ok a, s') → K s' → P (f a s').1)
    → P ((m >>= f) s).1
unfolding ◌>>=◌
then-at {E} {S} {A} {B} K P m f s keeps k stop next = go (m s) refl (keeps.at s k)
  where
    go : (r : Result E A × S) → m s ≡ r → K r.1 → P (continue r f).1
    go (ok a, s') e k' = next a s' e k'
    go (err x, s') e k' = stop s' k'
