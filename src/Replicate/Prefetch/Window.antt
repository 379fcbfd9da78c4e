-- ===== src/Replicate/Prefetch/Window.antt =====
-- What the window of downloads promises.
use yataverse_distribution.Prelude.{
  ℕ, ◌+◌, ◌-◌, ◌≤◌, ◌≡◌, refl, sym, ap, ◌∙◌, ◌||◌, List, [], ◌∷◌, ◌++◌, ltb, leb, length, arith,
  All, Bool-cases, inl, inr, append_assoc, append-nil,
}
use yataverse_distribution.Inventory.{Item}
use yataverse_distribution.Replicate.Prefetch.{
  Event, submit, yield, refuse, InFlight, drain, drain_all, prefetch_from, prefetch_ordered,
}

-- The yielded blocks.
unfoldable pub yields : List Event → List Item
yields [] = []
yields (submit i ∷ es) = yields es
yields (yield i ∷ es) = i ∷ yields es
yields (refuse i ∷ es) = yields es

yields-append : (es fs : List Event) → yields (es ++ fs) ≡ yields es ++ yields fs
unfolding yields
yields-append [] fs = refl
yields-append (submit i ∷ es) fs = yields-append es fs
yields-append (yield i ∷ es) fs = ap (λ l. i ∷ l) (yields-append es fs)
yields-append (refuse i ∷ es) fs = yields-append es fs

yields-drain_all : (items : List Item) → yields (drain_all items) ≡ items
unfolding yields drain_all
yields-drain_all [] = refl
yields-drain_all (i ∷ items) = ap (λ l. i ∷ l) (yields-drain_all items)

yields-drain :
    (workers budget size : ℕ) (items : List Item) (bytes : ℕ)
    → yields (drain workers budget size items bytes).0
        ++ (drain workers budget size items bytes).1.items
      ≡ items
unfolding yields drain
yields-drain workers budget size [] bytes = refl
yields-drain workers budget size (oldest ∷ others) bytes =
    elim (Bool-cases (leb workers (length (oldest ∷ others)) || ltb budget (bytes + size))) [
      | inl e ↦
          rw e
            (ap (λ l. oldest ∷ l) (yields-drain workers budget size others (bytes - oldest.size)))
      | inr e ↦ rw e refl
    ]

-- Every size is within the budget.
abbrev pub EachFits : ℕ → List Item → Type 0
EachFits budget items = All (λ (i : Item). i.size ≤ budget) items

yields-prefetch_from :
    (workers budget : ℕ) (items : List Item) (pending : InFlight)
    → EachFits budget items
    → yields (prefetch_from workers budget items pending) ≡ pending.items ++ items
unfolding prefetch_from yields
yields-prefetch_from workers budget [] pending fits =
    yields-drain_all pending.items ∙ sym (append-nil pending.items)
yields-prefetch_from workers budget (item ∷ items) pending (here, fits) =
    elim (Bool-cases (ltb budget item.size)) [
      | inl huge ↦ absurd (ground arith)
      | inr small ↦
          let d = drain workers budget item.size pending.items pending.bytes in
          let next : InFlight = record {
            items = d.1.items ++ (item ∷ []);
            bytes = d.1.bytes + item.size;
          } in
          rw small (
            yields-append d.0 (submit item ∷ prefetch_from workers budget items next)
            ∙ ap (λ l. yields d.0 ++ l) (yields-prefetch_from workers budget items next fits)
            ∙ ap (λ l. yields d.0 ++ l) (append_assoc d.1.items (item ∷ []) items)
            ∙ sym (append_assoc (yields d.0) d.1.items (item ∷ items))
            ∙ ap (λ l. l ++ (item ∷ items))
                (yields-drain workers budget item.size pending.items pending.bytes))
    ]

-- If each item fits the budget on its own, the blocks come out once each and in the order of the
-- inventory, whatever the number of workers and the budget.
pub prefetch_ordered-yields :
    (items : List Item) (workers budget : ℕ)
    → EachFits budget items
    → yields (prefetch_ordered items workers budget) ≡ items
unfolding prefetch_ordered
prefetch_ordered-yields items workers budget fits =
    yields-prefetch_from workers budget items (record { items = []; bytes = 0 }) fits

abbrev pub sizes : List Item → ℕ
sizes [] = 0
sizes (i ∷ items) = i.size + sizes items

sizes-append : (xs ys : List Item) → sizes (xs ++ ys) ≡ sizes xs + sizes ys
sizes-append [] ys = omega arith
sizes-append (x ∷ xs) ys = omega (arith, sizes-append xs ys)

-- With these downloads in flight, oldest first, no event goes past the bounds: a submitted download
-- finds a free worker and room in the budget, and what is yielded is the oldest one in flight.
abbrev pub Within : ℕ → ℕ → List Item → List Event → Type 0
Within workers budget pending [] = Unit
Within workers budget pending (submit i ∷ es) =
    (length pending + 1 ≤ workers)
    × (sizes pending + i.size ≤ budget)
    × Within workers budget (pending ++ (i ∷ [])) es
Within workers budget [] (yield i ∷ es) = ⊥
Within workers budget (oldest ∷ others) (yield i ∷ es) =
    (i ≡ oldest) × Within workers budget others es
Within workers budget pending (refuse i ∷ es) = Within workers budget pending es

drain_all-Within :
    (workers budget : ℕ) (items : List Item) → Within workers budget items (drain_all items)
unfolding drain_all
drain_all-Within workers budget [] = tt
drain_all-Within workers budget (i ∷ items) = (refl, drain_all-Within workers budget items)

-- What the inner loop leaves in flight: consistent, with a free worker and room for the next size.
record Drained (workers budget size : ℕ) (left : InFlight) : Type 0 where
  counted : left.bytes ≡ sizes left.items
  worker : length left.items + 1 ≤ workers
  room : left.bytes + size ≤ budget

drain-Drained :
    (workers budget size : ℕ) (items : List Item)
    → 1 ≤ workers
    → size ≤ budget
    → Drained workers budget size (drain workers budget size items (sizes items)).1
unfolding drain
drain-Drained workers budget size [] w fits = record {
  counted = refl;
  worker = omega arith;
  room = omega arith;
}
drain-Drained workers budget size (oldest ∷ others) w fits =
    let k : sizes (oldest ∷ others) - oldest.size ≡ sizes others = omega arith in
    elim (Bool-cases
      (leb workers (length (oldest ∷ others)) || ltb budget (sizes (oldest ∷ others) + size))) [
        | inl e ↦ rw (e, k) (drain-Drained workers budget size others w fits)
        | inr e ↦ rw e (record { counted = refl; worker = ground arith; room = ground arith })
      ]

drain-Within :
    (workers budget size : ℕ) (items : List Item) (bytes : ℕ) (es : List Event)
    → Within workers budget (drain workers budget size items bytes).1.items es
    → Within workers budget items ((drain workers budget size items bytes).0 ++ es)
unfolding drain
drain-Within workers budget size [] bytes es h = h
drain-Within workers budget size (oldest ∷ others) bytes es h =
    elim (Bool-cases (leb workers (length (oldest ∷ others)) || ltb budget (bytes + size))) [
      | inl e ↦
          rw e (refl, drain-Within workers budget size others (bytes - oldest.size) es (rw e at h))
      | inr e ↦ rw e (rw e at h)
    ]

prefetch_from-Within :
    (workers budget : ℕ) (items pending : List Item)
    → 1 ≤ workers
    → Within workers budget pending
        (prefetch_from workers budget items (record { items = pending; bytes = sizes pending }))
unfolding prefetch_from
prefetch_from-Within workers budget [] pending w = drain_all-Within workers budget pending
prefetch_from-Within workers budget (item ∷ items) pending w =
    elim (Bool-cases (ltb budget item.size)) [
      | inl huge ↦ rw huge tt
      | inr small ↦
          let d = drain workers budget item.size pending (sizes pending) in
          let left = drain-Drained workers budget item.size pending w (ground arith) in
          let k : sizes (d.1.items ++ (item ∷ [])) ≡ d.1.bytes + item.size =
            omega (arith, sizes-append d.1.items (item ∷ []), left.counted) in
          let room : sizes d.1.items + item.size ≤ budget =
            omega (arith, left.counted, left.room) in
          let rest = prefetch_from-Within workers budget items (d.1.items ++ (item ∷ [])) w in
          rw small (
            drain-Within workers budget item.size pending (sizes pending)
              (submit item
                ∷ prefetch_from workers budget items
                    (record { items = d.1.items ++ (item ∷ []); bytes = d.1.bytes + item.size }))
              (left.worker, room, rw k at rest))
    ]

-- With at least one worker, at most `workers` downloads are ever in flight, and together they never
-- reserve more than the budget. What is yielded is the oldest one in flight.
pub prefetch_ordered-Within :
    (items : List Item) (workers budget : ℕ)
    → 1 ≤ workers
    → Within workers budget [] (prefetch_ordered items workers budget)
unfolding prefetch_ordered
prefetch_ordered-Within items workers budget w = prefetch_from-Within workers budget items [] w

-- No item is refused.
abbrev pub NoRefuse : List Event → Type 0
NoRefuse [] = Unit
NoRefuse (submit i ∷ es) = NoRefuse es
NoRefuse (yield i ∷ es) = NoRefuse es
NoRefuse (refuse i ∷ es) = ⊥

NoRefuse-behind : (es fs : List Event) (i : Item) → NoRefuse (es ++ (submit i ∷ fs)) → NoRefuse fs
NoRefuse-behind [] fs i h = h
NoRefuse-behind (submit j ∷ es) fs i h = NoRefuse-behind es fs i h
NoRefuse-behind (yield j ∷ es) fs i h = NoRefuse-behind es fs i h
NoRefuse-behind (refuse j ∷ es) fs i h = absurd h

NoRefuse-EachFits :
    (workers budget : ℕ) (items : List Item) (pending : InFlight)
    → NoRefuse (prefetch_from workers budget items pending)
    → EachFits budget items
unfolding prefetch_from
NoRefuse-EachFits workers budget [] pending h = tt
NoRefuse-EachFits workers budget (item ∷ items) pending h =
    elim (Bool-cases (ltb budget item.size)) [
      | inl huge ↦ absurd (rw huge at h)
      | inr small ↦ (
        ground arith,
        NoRefuse-EachFits workers budget items _ (
            NoRefuse-behind (drain workers budget item.size pending.items pending.bytes).0 _ item
              (rw small at h)),
      )
    ]

-- Where no item is refused, all of them are yielded in order.
pub prefetch_ordered-NoRefuse :
    (items : List Item) (workers budget : ℕ)
    → NoRefuse (prefetch_ordered items workers budget)
    → yields (prefetch_ordered items workers budget) ≡ items
prefetch_ordered-NoRefuse items workers budget h = prefetch_ordered-yields items workers budget (
    NoRefuse-EachFits workers budget items (record { items = []; bytes = 0 })
      (unfold prefetch_ordered in h))
