-- ===== src/Handler/Slots.antt =====
-- The two semaphores and the requests in progress.
use yataverse_distribution.Prelude.{
  ℕ, zero, suc, ◌+◌, ◌≡◌, ◌≤◌, refl, Bool, true, false, not, ◌&&◌, some, List, [], ◌∷◌, leb, length,
  ok, ok_inj, arith, if◌then◌else◌, Bool-cases, Option-cases, inl, inr, ◌==◌,
}
use yataverse_distribution.Handler.{
  Request, health, elsewhere, broken, blocks, ipfs, admitted, Running, Server, Source, Event,
  comes_in, asks_large, ends, handler_for, take_out, release, arrived, needs_large, reserved,
  finished, step, serve,
}

abbrev one : Bool → ℕ
one true = 1
one false = 0

-- How many requests hold the large slot.
abbrev pub larges : List Running → ℕ
larges [] = 0
larges (r ∷ rs) = one r.large + larges rs

-- Each request in progress holds one of the `limit` slots, `lost` of them are held by none, and the
-- requests that say so hold the large one.
pub record Accounted (limit lost : ℕ) (s : Server) : Type 0 where
  pub slots : s.free_slots + length s.running + lost ≡ limit
  pub large : s.free_large + larges s.running ≡ 1

-- Taking a request out leaves the others.
pub record Out (r : Running) (others rs : List Running) : Type 0 where
  pub long : length rs ≡ suc (length others)
  pub large : larges rs ≡ one r.large + larges others

take_out-Out :
    (i : ℕ) (rs : List Running) (r : Running) (others : List Running)
    → take_out i rs ≡ some (r, others)
    → Out r others rs
unfolding take_out
take_out-Out i [] r others h = cc
take_out-Out zero (x ∷ rs) r others h =
    let is : x ≡ r = cc in
    let same : rs ≡ others = cc in rw (is, same) (record { long = refl; large = refl })
take_out-Out (suc i) (x ∷ rs) r others h = elim (Option-cases (take_out i rs)) [
  | inl e ↦ cc (rw e at h)
  | inr ((r', rest), e) ↦
      let is : r' ≡ r = cc (rw e at h) in
      let same : x ∷ rest ≡ others = cc (rw e at h) in
      let out = take_out-Out i rs r' rest e in
      rw (← same, ← is)
        (record { long = omega (arith, out.long); large = omega (arith, out.large) })
]

-- A slot is lost when a broken request gets one.
unfoldable pub loses : Event → Server → ℕ
loses (comes_in broken) s = if s.free_slots == 0 then 0 else 1
loses _ s = 0

unfoldable pub all_lost : Source → List Event → Server → ℕ
all_lost source [] s = 0
all_lost source (event ∷ events) s = loses event s + all_lost source events (step source event s).1

-- No request is broken.
abbrev pub NoneBroken : List Event → Type 0
NoneBroken [] = Unit
NoneBroken (comes_in broken ∷ events) = ⊥
NoneBroken (event ∷ events) = NoneBroken events

all_lost-NoneBroken :
    (source : Source) (events : List Event) (s : Server)
    → NoneBroken events
    → all_lost source events s ≡ 0
unfolding all_lost loses
all_lost-NoneBroken source [] s n = refl
all_lost-NoneBroken source (comes_in health ∷ events) s n =
    omega (arith, all_lost-NoneBroken source events _ n)
all_lost-NoneBroken source (comes_in elsewhere ∷ events) s n =
    omega (arith, all_lost-NoneBroken source events _ n)
all_lost-NoneBroken source (comes_in broken ∷ events) s n = absurd n
all_lost-NoneBroken source (comes_in (blocks q) ∷ events) s n =
    omega (arith, all_lost-NoneBroken source events _ n)
all_lost-NoneBroken source (comes_in (ipfs cid q) ∷ events) s n =
    omega (arith, all_lost-NoneBroken source events _ n)
all_lost-NoneBroken source (asks_large i ∷ events) s n =
    omega (arith, all_lost-NoneBroken source events _ n)
all_lost-NoneBroken source (ends i ∷ events) s n =
    omega (arith, all_lost-NoneBroken source events _ n)

admitted-larges : (request : Request) (rs : List Running) → larges (admitted request rs) ≡ larges rs
unfolding admitted
admitted-larges health rs = omega arith
admitted-larges elsewhere rs = omega arith
admitted-larges broken rs = refl
admitted-larges (blocks q) rs = omega arith
admitted-larges (ipfs cid q) rs = omega arith

length-admitted :
    (request : Request) (s : Server)
    → (s.free_slots == 0) ≡ false
    → length (admitted request s.running) + loses (comes_in request) s ≡ length s.running + 1
unfolding admitted loses
length-admitted health s e = omega arith
length-admitted elsewhere s e = omega arith
length-admitted broken s e = rw e (omega arith)
length-admitted (blocks q) s e = omega arith
length-admitted (ipfs cid q) s e = omega arith

loses-none :
    (request : Request) (s : Server) → (s.free_slots == 0) ≡ true → loses (comes_in request) s ≡ 0
unfolding loses
loses-none health s e = refl
loses-none elsewhere s e = refl
loses-none broken s e = rw e refl
loses-none (blocks q) s e = refl
loses-none (ipfs cid q) s e = refl

arrived-Accounted :
    (limit lost : ℕ) (request : Request) (s : Server)
    → Accounted limit lost s
    → Accounted limit (loses (comes_in request) s + lost) (arrived request s).1
unfolding arrived
arrived-Accounted limit lost request s a = elim (Bool-cases (s.free_slots == 0)) [
  | inl e ↦
      rw e (record { slots = omega (arith, a.slots, loses-none request s e); large = a.large })
  | inr e ↦
      let positive : 1 ≤ s.free_slots = ground arith in
      rw e (record {
        slots = omega (arith, a.slots, length-admitted request s e);
        large = omega (arith, a.large, admitted-larges request s.running);
      })
]

release-Accounted :
    (limit lost : ℕ) (r : Running) (others : List Running) (s : Server)
    → Out r others s.running
    → Accounted limit lost s
    → Accounted limit lost (release r others s)
unfolding release
release-Accounted limit lost r others s out a = elim (Bool-cases r.large) [
  | inl e ↦ rw e (record {
    slots = omega (arith, a.slots, out.long);
    large = omega (arith, a.large, rw e at out.large);
  })
  | inr e ↦ rw e (record {
    slots = omega (arith, a.slots, out.long);
    large = omega (arith, a.large, rw e at out.large);
  })
]

module _ (source : Source) (limit : ℕ) where
  reserved-Accounted :
      (lost i : ℕ) (s : Server)
      → Accounted limit lost s
      → Accounted limit lost (reserved source (take_out i s.running) s).1
  unfolding reserved
  reserved-Accounted lost i s a = elim (Option-cases (take_out i s.running)) [
    | inl e ↦ rw e a
    | inr ((r, others), e) ↦
        let out = take_out-Out i s.running r others e in
        elim (Bool-cases (needs_large source r.request && not r.large)) [
          | inr told ↦ rw (e, told) a
          | inl waits ↦
              let small : r.large ≡ false = ground arith in
              elim (Bool-cases (s.free_large == 0)) [
                | inl gone ↦ rw (e, waits, gone) (release-Accounted limit lost r others s out a)
                | inr free ↦
                    let some_free : 1 ≤ s.free_large = ground arith in
                    rw (e, waits, free)
                      (record {
                        slots = omega (arith, a.slots, out.long);
                        large = omega (arith, a.large, rw small at out.large);
                      })
              ]
        ]
  ]

  finished-Accounted :
      (lost i : ℕ) (s : Server)
      → Accounted limit lost s
      → Accounted limit lost (finished source (take_out i s.running) s).1
  unfolding finished
  finished-Accounted lost i s a = elim (Option-cases (take_out i s.running)) [
    | inl e ↦ rw e a
    | inr ((r, others), e) ↦
        let out = take_out-Out i s.running r others e in
        elim (Bool-cases (needs_large source r.request && not r.large)) [
          | inl waits ↦ rw (e, waits) a
          | inr told ↦ rw (e, told) (release-Accounted limit lost r others s out a)
        ]
  ]

  step-Accounted :
      (lost : ℕ) (event : Event) (s : Server)
      → Accounted limit lost s
      → Accounted limit (loses event s + lost) (step source event s).1
  unfolding step loses
  step-Accounted lost (comes_in request) s a = arrived-Accounted limit lost request s a
  step-Accounted lost (asks_large i) s a =
      let b = reserved-Accounted lost i s a in
      record { slots = omega (arith, b.slots); large = b.large }
  step-Accounted lost (ends i) s a =
      let b = finished-Accounted lost i s a in
      record { slots = omega (arith, b.slots); large = b.large }

  serve-Accounted :
      (lost : ℕ) (events : List Event) (s : Server)
      → Accounted limit lost s
      → Accounted limit (all_lost source events s + lost) (serve source events s)
  unfolding serve all_lost
  serve-Accounted lost [] s a = record { slots = omega (arith, a.slots); large = a.large }
  serve-Accounted lost (event ∷ events) s a =
      let later =
        serve-Accounted (loses event s + lost) events (step source event s).1
          (step-Accounted lost event s a) in
      record { slots = omega (arith, later.slots); large = later.large }

  handler_for-Accounted :
      (timeout : ℕ) (s : Server) → handler_for limit timeout ≡ ok s → Accounted limit 0 s
  unfolding handler_for
  handler_for-Accounted timeout s h = elim (Bool-cases (leb 1 limit && leb limit 64)) [
    | inr e ↦ cc (rw e at h)
    | inl e ↦ elim (Bool-cases (leb 120 timeout && leb timeout 1800)) [
      | inr f ↦ cc (rw (e, f) at h)
      | inl f ↦
          let is = ok_inj (rw (e, f) at h) in
          rw (← is) (record { slots = omega arith; large = omega arith })
    ]
  ]

  -- However the requests of a server are interleaved, each one in progress holds one of the `limit`
  -- slots, and at most one holds the slot for a large block. A request that `urlsplit` refuses
  -- loses the slot that it got, for good. What is neither held nor lost so is free; where no
  -- request is broken, none is lost, and a request that ends in any way has given back what it
  -- took.
  pub serve-slots :
      (timeout : ℕ) (s : Server) (events : List Event)
      → handler_for limit timeout ≡ ok s
      → ((serve source events s).free_slots
            + length (serve source events s).running
            + all_lost source events s
          ≡ limit)
        × ((serve source events s).free_large + larges (serve source events s).running ≡ 1)
        × (NoneBroken events → all_lost source events s ≡ 0)
  serve-slots timeout s events h =
      let a = serve-Accounted 0 events s (handler_for-Accounted timeout s h) in
      (omega (arith, a.slots), a.large, all_lost-NoneBroken source events s)
