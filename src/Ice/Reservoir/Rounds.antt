-- ===== src/Ice/Reservoir/Rounds.antt =====
-- src/ice/reservoir.rs, sample: the loop ends.
use zfx_subzero.Prelude.{
  ℕ, zero, suc, ◌+◌, ◌*◌, ◌≤◌, ◌<◌, ◌≡◌, inl, inr, refl, true, List, [], ◌∷◌, arith, leb, length,
  nat_eq, Bool-cases,
}
use zfx_subzero.Prelude.HashMap.{HashMap}
use zfx_subzero.Ice.{PeerId, k}
use zfx_subzero.Ice.Reservoir.{
  Entry, Reservoir, undecided_of, permute, sample_loop, sample_round, Round, done, again,
}
use zfx_subzero.Ice.Reservoir.Sampling.{List-cases}

module _ (shuffle : List (PeerId × Entry) → List (PeerId × Entry)) where
  -- A run of the loop as the source has it, without fuel: what it ends with.
  pub data Ends
      : ℕ → HashMap PeerId Entry → Reservoir → Reservoir × HashMap PeerId Entry → Type 0 where
    breaks :
        {i : ℕ} {samples samples' : HashMap PeerId Entry} {r r' : Reservoir}
        → sample_round shuffle i samples r ≡ done r' samples'
        → Ends i samples r (r', samples')
    continues :
        {i j : ℕ} {samples samples' : HashMap PeerId Entry} {r r' : Reservoir}
        {out : Reservoir × HashMap PeerId Entry}
        → sample_round shuffle i samples r ≡ again j samples' r'
        → Ends j samples' r' out
        → Ends i samples r out

-- The rounds that the loop takes at most from `i` picks on.
abbrev ready : List (PeerId × Entry) → ℕ
ready [] = 0
ready (x ∷ xs) = 1

module _ (shuffle : List (PeerId × Entry) → List (PeerId × Entry))
    (length-shuffle : (xs : List (PeerId × Entry)) → length (shuffle xs) ≡ length xs) where
  ready-permute :
      (r : Reservoir) → (permute shuffle r).1 ≡ true → ready (permute shuffle r).0.random_queue ≡ 1
  unfolding permute
  ready-permute r h = go (undecided_of r.decisions) refl
    where
      filled : (xs : List (PeerId × Entry)) → 1 ≤ length xs → ready xs ≡ 1
      filled [] l = absurd (omega arith)
      filled (x ∷ xs) l = refl

      go :
          (xs : List (PeerId × Entry))
          → undecided_of r.decisions ≡ xs
          → ready (permute shuffle r).0.random_queue ≡ 1
      go [] e = absurd (ground (arith, e))
      go (x ∷ xs) e =
          rw (e, permute) (filled (shuffle (x ∷ xs)) (omega (arith, length-shuffle (x ∷ xs))))

  -- Every round that goes on takes one from the rounds that are left.
  abbrev Shrinks : ℕ → Round → Type 0
  Shrinks n (done r samples) = Unit
  Shrinks n (again i samples r) = (0 < n) × (2 * k < 2 * i + n + ready r.random_queue)

  sample_round-Shrinks :
      (n i : ℕ) (samples : HashMap PeerId Entry) (r : Reservoir)
      → 2 * k < 2 * i + suc n + ready r.random_queue
      → Shrinks n (sample_round shuffle i samples r)
  unfolding sample_round
  sample_round-Shrinks n i samples r h = elim (Bool-cases (leb k i)) [
    | inl full ↦ rw full tt
    | inr more ↦ rw more (elim (List-cases r.random_queue) [
      | inl e ↦ rw e (elim (Bool-cases (permute shuffle r).1) [
        | inl found ↦ rw found (ground (arith, ready-permute r found, e))
        | inr none_left ↦ rw none_left tt
      ])
      | inr (x, rest, e) ↦ rw e (ground (arith, e))
    ])
  ]

  -- The loop after a round, given that it ends when there are rounds left.
  round-Ends :
      {n i : ℕ} {samples : HashMap PeerId Entry} {r : Reservoir} (x : Round)
      → Shrinks n x
      → sample_round shuffle i samples r ≡ x
      → ((j : ℕ) (m : HashMap PeerId Entry) (t : Reservoir)
          → 0 < n
          → 2 * k < 2 * j + n + ready t.random_queue
          → Ends shuffle j m t (sample_loop shuffle n j m t))
      → Ends shuffle i samples r (elim x as (λ _. Reservoir × HashMap PeerId Entry) [
        | done r' samples' ↦ (r', samples')
        | again j m t ↦ sample_loop shuffle n j m t
      ])
  round-Ends (done r' m) h e k = Ends.breaks e
  round-Ends (again j m t) h e k = Ends.continues e (k j m t h.0 h.1)

  sample_loop-Ends_within :
      (n i : ℕ) (samples : HashMap PeerId Entry) (r : Reservoir)
      → 0 < n
      → 2 * k < 2 * i + n + ready r.random_queue
      → Ends shuffle i samples r (sample_loop shuffle n i samples r)
  unfolding sample_loop
  sample_loop-Ends_within zero i samples r some_left h = absurd (omega arith)
  sample_loop-Ends_within (suc n) i samples r some_left h =
      round-Ends (sample_round shuffle i samples r) (sample_round-Shrinks n i samples r h) refl
        (sample_loop-Ends_within n)

  -- If `shuffle` keeps the number of elements, the loop of `sample` ends: run as the source has it,
  -- without fuel, it has an end, which is the result for any fuel from five rounds on.
  pub sample_loop-Ends :
      (n : ℕ) (r : Reservoir) → 5 ≤ n → Ends shuffle 0 [] r (sample_loop shuffle n 0 [] r)
  sample_loop-Ends n r h = sample_loop-Ends_within n 0 [] r (omega arith) (omega arith)
