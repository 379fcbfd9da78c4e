-- ===== src/Ship/Rows/Lists.antt =====
-- Lists of lines and of rows.
use yataverse_distribution.Prelude.{
  ℕ, zero, suc, ◌+◌, ◌≡◌, ◌⊎◌, inl, inr, refl, ap, some, List, [], ◌∷◌, ◌++◌, length, get_elem?,
  drop, All, Bytes, arith,
}
use yataverse_distribution.Inventory.{Item}
use yataverse_distribution.Inventory.Load.{total_of}

pub get_elem?-drop :
    (n : ℕ) (xs : List Bytes) (x : Bytes) (ys : List Bytes)
    → drop n xs ≡ x ∷ ys
    → get_elem? xs n ≡ some x
get_elem?-drop zero [] x ys h = cc
get_elem?-drop zero (z ∷ xs) x ys h = cc
get_elem?-drop (suc n) [] x ys h = cc
get_elem?-drop (suc n) (z ∷ xs) x ys h = get_elem?-drop n xs x ys h

pub drop-next :
    (n : ℕ) (xs : List Bytes) (x : Bytes) (ys : List Bytes)
    → drop n xs ≡ x ∷ ys
    → drop (suc n) xs ≡ ys
drop-next zero [] x ys h = cc
drop-next zero (z ∷ xs) x ys h = cc
drop-next (suc n) [] x ys h = cc
drop-next (suc n) (z ∷ xs) x ys h = drop-next n xs x ys h

pub get_elem?-snoc :
    (xs : List Item) (x y : Item) (k : ℕ)
    → get_elem? (xs ++ (x ∷ [])) k ≡ some y
    → (get_elem? xs k ≡ some y) ⊎ ((k ≡ length xs) × (x ≡ y))
get_elem?-snoc [] x y zero h = inr (refl, cc)
get_elem?-snoc [] x y (suc k) h = cc
get_elem?-snoc (z ∷ xs) x y zero h = inl h
get_elem?-snoc (z ∷ xs) x y (suc k) h = elim (get_elem?-snoc xs x y k h) [
  | inl there ↦ inl there
  | inr (e, same) ↦ inr (ap suc e, same)
]

pub total_of-snoc : (xs : List Item) (x : Item) → total_of (xs ++ (x ∷ [])) ≡ total_of xs + x.size
total_of-snoc [] x = omega arith
total_of-snoc (y ∷ xs) x = omega (arith, total_of-snoc xs x)

pub All-snoc :
    (P : Item → Type 0) (xs : List Item) (x : Item) → All P xs → P x → All P (xs ++ (x ∷ []))
All-snoc P [] x all p = (p, tt)
All-snoc P (y ∷ xs) x (q, all) p = (q, All-snoc P xs x all p)
