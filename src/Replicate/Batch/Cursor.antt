-- ===== src/Replicate/Batch/Cursor.antt =====
-- A page that raises, or that the byte budget stops, leaves the progress in the checkpoint as it
-- was.
use yataverse_distribution.Prelude.{
  ℕ, ◌≡◌, refl, ap, ◌∙◌, subst, Option, List, String, Bytes, Result, ok, err, inl, inr,
}
use yataverse_distribution.Prelude.Actions.{
  >>=-eq_ok, >>=-eq_err, give-eq_ok, give, Keeps, ensure-Keeps,
}
use yataverse_distribution.Replicate.{ReplicationError, State, Listing}
use yataverse_distribution.Replicate.Prefetch.{Event}
use yataverse_distribution.Replicate.Put.{Rpc, World}
use yataverse_distribution.Replicate.Batch.{Args, Counters, over_budget, select, copy, run_listing}
use yataverse_distribution.Replicate.Batch.Rounds.{saved-Untouched, select-Keeps, copy-Keeps}
use yataverse_distribution.Replicate.Batch.Pages.{finish_page-eq_ok, finish_page-never_raises}

-- The cursor, the cycles and the pages are those of `before`.
abbrev pub SameProgress : State → State → Type 0
SameProgress before st =
    (st.cursor ≡ before.cursor)
    × (st.cycles ≡ before.cycles)
    × (st.pages_total ≡ before.pages_total)

module _ (sha256 : Bytes → Bytes) (b32decode : List ℕ → Option Bytes) (hexdigest : Bytes → String)
    (rpc : Rpc) (args : Args) (listing : Option String → Result ReplicationError Listing)
    (fetch_block : String → ℕ → Result ReplicationError Bytes)
    (free_bytes : World rpc.Daemon → ℕ) where
  selects :
      (before : State) (l : Listing) (new_bytes : ℕ)
      → Keeps
          (λ (w : World rpc.Daemon). SameProgress before w.saved)
          (select sha256 b32decode hexdigest rpc args listing fetch_block free_bytes l.blocks
            new_bytes 0)
  selects before l new_bytes =
      select-Keeps sha256 b32decode hexdigest rpc args listing fetch_block free_bytes _
        (saved-Untouched (SameProgress before)) l.blocks new_bytes 0

  copies :
      (before : State) (events : List Event) (c : Counters)
      → Keeps
          (λ (w : World rpc.Daemon). SameProgress before w.saved)
          (copy sha256 b32decode hexdigest rpc args listing fetch_block free_bytes events c)
  copies before events c =
      copy-Keeps sha256 b32decode hexdigest rpc args listing fetch_block free_bytes _
        (saved-Untouched (SameProgress before)) (λ w i b p. p) events c

  -- A page that raises leaves the cursor, the cycles and the pages of the checkpoint as they were.
  pub run_listing-raises :
      (l : Listing) (c : Counters) (e : ReplicationError) (w w' : World rpc.Daemon)
      → run_listing sha256 b32decode hexdigest rpc args listing fetch_block free_bytes l c w
        ≡ (err e, w')
      → SameProgress w.saved w'.saved
  unfolding run_listing
  run_listing-raises l c e w w' h =
      let P = λ (v : World rpc.Daemon). SameProgress w.saved v.saved in
      let start : P w = (refl, refl, refl) in
      elim (>>=-eq_err _ _ w w' e h) [
        | inl k ↦ subst (λ r. P r.1) k ((ensure-Keeps P _ _).at w start)
        | inr (_, w1, k1, h1) ↦
            let p1 : P w1 = subst (λ r. P r.1) k1 ((ensure-Keeps P _ _).at w start) in
            elim (>>=-eq_err _ _ w1 w' e h1) [
              | inl k ↦ subst (λ r. P r.1) k ((selects w.saved l c.new_bytes).at w1 p1)
              | inr (s, w2, k2, h2) ↦
                  let p2 : P w2 =
                    subst (λ r. P r.1) k2 ((selects w.saved l c.new_bytes).at w1 p1) in
                  elim (>>=-eq_err _ _ w2 w' e h2) [
                    | inl k ↦ subst (λ r. P r.1) k ((copies w.saved _ _).at w2 p2)
                    | inr (c', w3, k3, h3) ↦ elim (>>=-eq_err _ _ w3 w' e h3) [
                      | inl k ↦ absurd (
                          finish_page-never_raises sha256 b32decode hexdigest rpc args listing
                            fetch_block free_bytes s.budget_stop l e w3 w' k)
                      | inr (end, w4, k4, h4) ↦ unfold give in cc
                    ]
                  ]
            ]
      ]

  -- A page that the byte budget stops leaves the cursor, the cycles and the pages of the checkpoint
  -- as they were, although it may have copied blocks.
  pub run_listing-over_budget :
      (l : Listing) (c c' : Counters) (w w' : World rpc.Daemon)
      → run_listing sha256 b32decode hexdigest rpc args listing fetch_block free_bytes l c w
        ≡ (ok (c', over_budget), w')
      → SameProgress w.saved w'.saved
  unfolding run_listing
  run_listing-over_budget l c c' w w' h =
      let P = λ (v : World rpc.Daemon). SameProgress w.saved v.saved in
      let start : P w = (refl, refl, refl) in
      let (_, w1, k1, h1) = >>=-eq_ok _ _ w w' (c', over_budget) h in
      let (s, w2, k2, h2) = >>=-eq_ok _ _ w1 w' (c', over_budget) h1 in
      let (copied, w3, k3, h3) = >>=-eq_ok _ _ w2 w' (c', over_budget) h2 in
      let (how, w4, k4, h4) = >>=-eq_ok _ _ w3 w' (c', over_budget) h3 in
      let (is, same) = give-eq_ok (copied, how) (c', over_budget) w4 w' h4 in
      let p1 : P w1 = subst (λ r. P r.1) k1 ((ensure-Keeps P _ _).at w start) in
      let p2 : P w2 = subst (λ r. P r.1) k2 ((selects w.saved l c.new_bytes).at w1 p1) in
      let p3 : P w3 = subst (λ r. P r.1) k3 ((copies w.saved _ _).at w2 p2) in
      elim (finish_page-eq_ok sha256 b32decode hexdigest rpc args listing fetch_block free_bytes
        s.budget_stop l how w3 w4 k4) [
          | inl (_, _, nothing) ↦ subst P (nothing ∙ same) p3
          | inr (_, moved, _) ↦ absurd (moved (ap (λ r. r.1) is))
        ]
