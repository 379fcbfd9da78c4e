-- ===== src/Car/Stream/Ends.antt =====
-- Copies that end: none of the loops runs out of the fuel that the model gives it.
use yataverse_distribution.Prelude.{
  ℕ, ◌≡◌, ◌≢◌, refl, Bool, true, false, Result, ok, err, length, take, drop, leb, leb→le, inl, inr,
  ◌⊎◌, Bool-cases, arith, if◌then◌else◌,
}
use yataverse_distribution.Car.Stream.{
  Stream, Copier, ArchiveError, pure, raise, check, position, continue, ◌>>=◌, capture_byte,
  read_and_write, copy_counted, out_of_fuel,
}
use yataverse_distribution.Car.Stream.Exact.{
  split_source, read_and_write_enough, read_and_write_short, copy_counted_enough,
  copy_counted_short,
}

pub record Ends {A : Type 0} (m : Copier A) : Type 0 where
  pub at : (s : Stream) → m s ≢ err out_of_fuel

module _ {A : Type 0} where
  pub pure-Ends : (a : A) → Ends (pure a)
  unfolding pure
  pure-Ends a = record { at = λ s h. cc }

  pub raise-Ends : (e : ArchiveError) → e ≢ out_of_fuel → Ends (raise {A = A} e)
  unfolding raise
  raise-Ends e other = record { at = λ s h. other (cc) }

pub position-Ends : Ends position
unfolding position
position-Ends = record { at = λ s h. cc }

pub check-Ends : (b : Bool) (e : ArchiveError) → e ≢ out_of_fuel → Ends (check b e)
unfolding check
check-Ends true e other = record { at = λ s h. cc }
check-Ends false e other = record { at = λ s h. other (cc) }

pub if-Ends : {A : Type 0} (b : Bool) (m n : Copier A) → Ends m → Ends n → Ends (if b then m else n)
if-Ends true m n hm hn = hm
if-Ends false m n hm hn = hn

-- The rest of the block may use the run that came before it.
pub bind-Ends_at :
    {A B : Type 0} (m : Copier A) (f : A → Copier B) (s : Stream)
    → m s ≢ err out_of_fuel
    → ((a : A) (s' : Stream) → m s ≡ ok (a, s') → f a s' ≢ err out_of_fuel)
    → (m >>= f) s ≢ err out_of_fuel
unfolding ◌>>=◌
bind-Ends_at {A} {B} m f s hm hf h = go (m s) refl h
  where
    go : (r : Result ArchiveError (A × Stream)) → m s ≡ r → continue r f ≡ err out_of_fuel → ⊥
    go (ok (a, s')) e h = hf a s' e h
    go (err x) e h = hm (cc)

pub bind-Ends :
    {A B : Type 0} (m : Copier A) (f : A → Copier B)
    → Ends m
    → ((a : A) → Ends (f a))
    → Ends (m >>= f)
bind-Ends m f hm hf = record { at = λ s. bind-Ends_at m f s (hm.at s) (λ a s' e. (hf a).at s') }

pub capture_byte-Ends : (e : ArchiveError) → e ≢ out_of_fuel → Ends (capture_byte e)
unfolding capture_byte
capture_byte-Ends e other = record { at = λ s h. ground (arith, other) }

pub read_and_write-Ends : (size : ℕ) → Ends (read_and_write size)
read_and_write-Ends size = record { at = λ s. go s (Bool-cases (leb size (length s.source))) }
  where
    go :
        (s : Stream)
        → (leb size (length s.source) ≡ true) ⊎ (leb size (length s.source) ≡ false)
        → read_and_write size s ≢ err out_of_fuel
    go s (inl fits) =
        let (there, long) = split_source size s.source (leb→le _ _ fits) in
        λ h. cc (read_and_write_enough size s (take size s.source) (drop size s.source) there long)
    go s (inr wide) = λ h. cc (read_and_write_short size s (ground arith))

pub copy_counted-Ends : (size : ℕ) → Ends (copy_counted size)
copy_counted-Ends size = record { at = λ s. go s (Bool-cases (leb size (length s.source))) }
  where
    go :
        (s : Stream)
        → (leb size (length s.source) ≡ true) ⊎ (leb size (length s.source) ≡ false)
        → copy_counted size s ≢ err out_of_fuel
    go s (inl fits) =
        let (there, long) = split_source size s.source (leb→le _ _ fits) in
        λ h. cc (copy_counted_enough size s (take size s.source) (drop size s.source) there long)
    go s (inr wide) = λ h. cc (copy_counted_short size s (ground arith))

pub if-Ends_at :
    {A : Type 0} (b : Bool) (m n : Copier A) (s : Stream)
    → (b ≡ true → m s ≢ err out_of_fuel)
    → (b ≡ false → n s ≢ err out_of_fuel)
    → (if b then m else n) s ≢ err out_of_fuel
if-Ends_at true m n s hm hn = hm refl
if-Ends_at false m n s hm hn = hn refl
