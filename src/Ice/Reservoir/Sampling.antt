-- ===== src/Ice/Reservoir/Sampling.antt =====
-- src/ice/reservoir.rs, sample: what it picks.
use zfx_subzero.Prelude.{
  ℕ, zero, suc, ◌+◌, ◌≤◌, ◌<◌, ◌≡◌, ◌⊎◌, inl, inr, refl, List, [], ◌∷◌, arith, ltb, leb, length,
  nat_eq, All, Bool-cases, eqb, eqb_iff, subst, sym,
}
use zfx_subzero.Prelude.HashMap
use zfx_subzero.Prelude.HashMap.{HashMap}
use zfx_subzero.Ice.{PeerId, k, beta1}
use zfx_subzero.Ice.Reservoir.{
  Entry, Reservoir, undecided_of, permute, sample_loop, sample, sample_round, Round, done, again,
}

-- An entry that may be queried.
abbrev pub IsUndecided : PeerId × Entry → Type 0
IsUndecided x = x.1.conviction < beta1

undecided_of-IsUndecided : (m : HashMap PeerId Entry) → All IsUndecided (undecided_of m)
unfolding undecided_of
undecided_of-IsUndecided [] = tt
undecided_of-IsUndecided ((id, entry) ∷ m) = elim (Bool-cases (leb beta1 entry.conviction)) [
  | inl strong ↦ rw strong (undecided_of-IsUndecided m)
  | inr weak ↦ rw weak (ground (arith), undecided_of-IsUndecided m)
]

insert-All :
    (P : PeerId × Entry → Type 0) (id : PeerId) (entry : Entry) (m : HashMap PeerId Entry)
    → P (id, entry)
    → All P m
    → All P (HashMap.insert id entry m)
unfolding HashMap.insert
insert-All P id entry [] p h = (p, tt)
insert-All P id entry ((j, x) ∷ m) p h = elim (Bool-cases (eqb j id)) [
  | inl same ↦ rw same (subst (λ i. P (i, entry)) (sym ((eqb_iff j id).0 same)) p, h.1)
  | inr other ↦ rw other (h.0, insert-All P id entry m p h.1)
]

length-insert :
    (id : PeerId) (entry : Entry) (m : HashMap PeerId Entry)
    → length (HashMap.insert id entry m) ≤ length m + 1
unfolding HashMap.insert
length-insert id entry [] = omega arith
length-insert id entry ((j, x) ∷ m) = ground (arith, length-insert id entry m)

-- The queue and the sample are of undecided peers, and the sample has at most `n`.
abbrev pub IsSample : ℕ → Reservoir × HashMap PeerId Entry → Type 0
IsSample n s = All IsUndecided s.0.random_queue × All IsUndecided s.1 × (length s.1 ≤ n)

pub List-cases :
    (xs : List (PeerId × Entry))
    → (xs ≡ []) ⊎ ((x : PeerId × Entry) × (rest : List (PeerId × Entry)) × (xs ≡ x ∷ rest))
List-cases [] = inl refl
List-cases (x ∷ xs) = inr (x, xs, refl)

module _ (shuffle : List (PeerId × Entry) → List (PeerId × Entry))
    (shuffle-All : (xs : List (PeerId × Entry))
      → All IsUndecided xs
      → All IsUndecided (shuffle xs)) where
  permute-IsUndecided :
      (r : Reservoir)
      → All IsUndecided r.random_queue
      → All IsUndecided (permute shuffle r).0.random_queue
  unfolding permute
  permute-IsUndecided r h =
      go (undecided_of r.decisions) (undecided_of-IsUndecided r.decisions) refl
    where
      go :
          (xs : List (PeerId × Entry))
          → All IsUndecided xs
          → undecided_of r.decisions ≡ xs
          → All IsUndecided (permute shuffle r).0.random_queue
      go [] u e = rw (e, permute) h
      go (x ∷ xs) u e = rw (e, permute) (shuffle-All (x ∷ xs) u)

  -- A round keeps the queue and the sample of undecided peers.
  abbrev Keeps : Round → Type 0
  Keeps (done r samples) = IsSample k (r, samples)
  Keeps (again i samples r) =
      (length samples ≤ i) × (i ≤ k) × All IsUndecided samples × All IsUndecided r.random_queue

  sample_round-Keeps :
      (i : ℕ) (samples : HashMap PeerId Entry) (r : Reservoir)
      → length samples ≤ i
      → i ≤ k
      → All IsUndecided samples
      → All IsUndecided r.random_queue
      → Keeps (sample_round shuffle i samples r)
  unfolding sample_round
  sample_round-Keeps i samples r l b s q = elim (Bool-cases (leb k i)) [
    | inl full ↦ rw full (q, s, omega arith)
    | inr more ↦ rw more (elim (List-cases r.random_queue) [
      | inl e ↦ rw e (elim (Bool-cases (permute shuffle r).1) [
        | inl found ↦ rw found (l, b, s, permute-IsUndecided r q)
        | inr none_left ↦ rw none_left (permute-IsUndecided r q, s, omega arith)
      ])
      | inr (x, rest, e) ↦
          let u = subst (All IsUndecided) e q in
          rw e (
            omega (arith, length-insert x.0 x.1 samples),
            ground arith,
            insert-All IsUndecided x.0 x.1 samples u.0 s,
            u.1,
          )
    ])
  ]

  -- The loop after a round.
  round-IsSample :
      (n : ℕ) (x : Round)
      → Keeps x
      → ((i : ℕ) (m : HashMap PeerId Entry) (t : Reservoir)
          → length m ≤ i
          → i ≤ k
          → All IsUndecided m
          → All IsUndecided t.random_queue
          → IsSample k (sample_loop shuffle n i m t))
      → IsSample k (elim x as (λ _. Reservoir × HashMap PeerId Entry) [
        | done r' samples' ↦ (r', samples')
        | again i' samples' r' ↦ sample_loop shuffle n i' samples' r'
      ])
  round-IsSample n (done r' m) h next = h
  round-IsSample n (again i m t) (l, b, s, q) next = next i m t l b s q

  sample_loop-IsSample :
      (n i : ℕ) (samples : HashMap PeerId Entry) (r : Reservoir)
      → length samples ≤ i
      → i ≤ k
      → All IsUndecided samples
      → All IsUndecided r.random_queue
      → IsSample k (sample_loop shuffle n i samples r)
  unfolding sample_loop
  sample_loop-IsSample zero i samples r l b s q = (q, s, omega arith)
  sample_loop-IsSample (suc n) i samples r l b s q =
      round-IsSample n (sample_round shuffle i samples r) (sample_round-Keeps i samples r l b s q)
        (sample_loop-IsSample n)

  -- If `shuffle` makes of peers with a conviction below `beta1` a list of such peers, and the queue
  -- holds only such peers, then
  -- `sample` picks at most `k` peers, all of them with a conviction below `beta1`, and leaves such a
  -- queue.
  pub sample-IsSample :
      (r : Reservoir) → All IsUndecided r.random_queue → IsSample k (sample shuffle r)
  unfolding sample
  sample-IsSample r q =
      let picked = sample_loop-IsSample 5 0 [] r (omega arith) (omega arith) tt q in
      elim (Bool-cases (ltb 0 (length r.decisions))) [
        | inl some_known ↦ rw some_known picked
        | inr none_known ↦ rw none_known (q, tt, omega arith)
      ]
