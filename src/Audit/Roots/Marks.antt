-- ===== src/Audit/Roots/Marks.antt =====
-- What marking rows changes, and what the union of two lists of pins has.
use text.Mathlib.TextPositions.{eq_refl}
use yataverse_distribution.Prelude.{
  ℕ, zero, suc, ◌+◌, ◌≡◌, ◌≤◌, ◌<◌, ◌⊎◌, inl, inr, refl, Bool, true, false, ◌||◌, List, [], ◌∷◌,
  String, replicate, All, Bool-cases, arith,
}
use yataverse_distribution.Replicate.Put.{contains}
use yataverse_distribution.Audit.Roots.{mark, is_marked, union}

-- A row that is marked was so before, or lies in the range.
pub is_marked-mark :
    (start end i : ℕ) (covered : List Bool) (row : ℕ)
    → is_marked (mark start end i covered) row ≡ true
    → (is_marked covered row ≡ true) ⊎ ((start ≤ i + row) × (i + row < end))
unfolding is_marked mark
is_marked-mark start end i [] row h = cc
is_marked-mark start end i (true ∷ bs) zero h = inl refl
is_marked-mark start end i (false ∷ bs) zero h = inr (ground arith)
is_marked-mark start end i (b ∷ bs) (suc row) h = elim (is_marked-mark start end (suc i) bs row h) [
  | inl before ↦ inl before
  | inr inside ↦ inr (omega (arith, inside))
]

pub none_marked : (n row : ℕ) → is_marked (replicate n false) row ≡ true → ⊥
unfolding is_marked
none_marked zero row h = cc
none_marked (suc n) zero h = cc
none_marked (suc n) (suc row) h = none_marked n row h

contains-later :
    (c x : String) (xs : List String) → contains c xs ≡ true → contains c (x ∷ xs) ≡ true
unfolding contains
contains-later c x xs h = ground (arith, h)

pub contains-All :
    (P : String → Type 0) (xs : List String)
    → ((c : String) → contains c xs ≡ true → P c)
    → All P xs
contains-All P [] f = tt
contains-All P (x ∷ xs) f = (
  f x (unfold contains in ground (arith, eq_refl x)),
  contains-All P xs (λ c h. f c (contains-later c x xs h)),
)

-- Each pin of the union is one of the two kinds.
pub union-All :
    (P : String → Type 0) (direct recursive : List String)
    → ((c : String) → (contains c direct || contains c recursive) ≡ true → P c)
    → All P (union direct recursive)
unfolding union
union-All P direct [] f = contains-All P direct (λ c h. f c (ground (arith, h)))
union-All P direct (x ∷ xs) f =
    let rest = union-All P direct xs (λ c h. f c (later c h)) in
    elim (Bool-cases (contains x direct)) [ inl e ↦ rw e rest | inr e ↦ rw e (f x (here x), rest) ]
  where
    later :
        (c : String)
        → (contains c direct || contains c xs) ≡ true
        → (contains c direct || contains c (x ∷ xs)) ≡ true
    later c h = ground (arith, h, contains-later c x xs)

    here : (c : String) → (contains c direct || contains c (c ∷ xs)) ≡ true
    here c = unfold contains in ground (arith, eq_refl c)
