-- ===== src/Json.antt =====
-- What the receipts and the inventory rows use of `json.loads`: a dict of scalars. A number that is
-- negative or no integer, a list and a dict inside a dict are `other`.
use Prim.Native.Char.{code}
use text.Mathlib.Text.{◌==◌ as text_eq}
use yataverse_distribution.Prelude.{
  ℕ, ◌==◌, Bool, true, false, ◌&&◌, ◌||◌, Option, none, some, List, [], ◌∷◌, String, leb,
  if◌then◌else◌, length,
}

pub data Json : Type 0 where
  null other : Json
  bool : Bool → Json
  int : ℕ → Json
  str : String → Json

abbrev pub Dict : Type 0
Dict = List (String × Json)

module _ {V : Type 0} where
  -- `d.get(key)`
  unfoldable pub lookup : String → List (String × V) → Option V
  lookup key [] = none
  lookup key ((k, v) ∷ d) = if text_eq k key then some v else lookup key d

  -- `key in d`
  unfoldable pub has_key : String → List (String × V) → Bool
  has_key key [] = false
  has_key key ((k, v) ∷ d) = text_eq k key || has_key key d

-- `value == n`: Python's `True` and `False` are equal to 1 and 0.
unfoldable pub is_number : ℕ → Option Json → Bool
is_number n (some (int m)) = m == n
is_number n (some (bool true)) = n == 1
is_number n (some (bool false)) = n == 0
is_number n _ = false

-- `value == s`
unfoldable pub is_text : String → Option Json → Bool
is_text s (some (str t)) = text_eq t s
is_text s _ = false

-- The value, if it is a `str`.
unfoldable pub text_of : Option Json → Option String
text_of (some (str t)) = some t
text_of _ = none

-- The value, if `type(value) is int` and it is not negative.
unfoldable pub int_of : Option Json → Option ℕ
int_of (some (int n)) = some n
int_of _ = none

-- The code points of a text.
abbrev pub codes : String → List ℕ
codes String.[] = []
codes (String.◌∷◌ c s) = code c ∷ codes s

unfoldable pub all_codes : (ℕ → Bool) → List ℕ → Bool
all_codes p [] = true
all_codes p (c ∷ cs) = p c && all_codes p cs

-- `low <= c <= high`
abbrev pub between : ℕ → ℕ → ℕ → Bool
between low high c = leb low c && leb c high

-- `[0-9a-f]{64}`
unfoldable pub is_sha256 : String → Bool
unfolding all_codes
is_sha256 s =
    let cs = codes s in
    length cs == 64 && all_codes (λ c. between b'0' b'9' c || between b'a' b'f' c) cs
