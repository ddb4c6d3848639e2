-- ===== src/Sleet/Bounded/Recent.antt =====
-- src/sleet/sleet/sleet_utils.rs: the bounded set is a queue of the elements that came last.
use zfx_subzero.Prelude.{
  ℕ, zero, suc, ◌+◌, ◌-◌, ◌≤◌, ◌<◌, ◌≡◌, refl, sym, subst, true, false, List, [], ◌∷◌, ◌++◌, arith,
  leb, ltb, length, length-append, Bool-cases, inl, inr, if◌then◌else◌, Result, ok, Eq, ==_refl,
}
use zfx_subzero.Prelude.HashSet
use zfx_subzero.Prelude.HashSet.{contains, IsDistinct, IsDistinct-snoc, contains-append}
use zfx_subzero.Sleet.Bounded.{BoundedHashSet, new_set, make_room, insert_elem}

module _ {ℓ} {A : Type ℓ} where
  abbrev pub drop : ℕ → List A → List A
  drop zero xs = xs
  drop (suc n) [] = []
  drop (suc n) (x ∷ xs) = drop n xs

  -- The last `n` of a list.
  abbrev pub keep_last : ℕ → List A → List A
  keep_last n xs = drop (length xs - n) xs

module _ {ℓ} {T : Type ℓ} ⦃e : Eq T⦄ where
  -- The queue lists the elements, each once, and there are fewer than the size.
  pub record IsQueue (s : BoundedHashSet T) : Type ℓ where
    pub same : s.elems ≡ s.queue
    pub distinct : IsDistinct s.queue
    pub bounded : length s.queue < s.size

  -- What a bounded set promises: a new element comes last, and only the last `n` stay.
  abbrev pub push_recent : ℕ → T → List T → List T
  push_recent n a xs = if contains xs a then xs else keep_last n (xs ++ a ∷ [])

  remove_absent : (a : T) (xs : List T) → contains xs a ≡ false → HashSet.remove a xs ≡ xs
  unfolding HashSet.remove contains
  remove_absent a [] h = refl
  remove_absent a (x ∷ xs) h = ground (arith, remove_absent a xs)

  pub new_set-IsQueue : (size : ℕ) → 1 ≤ size → IsQueue (new_set {T = T} size)
  unfolding new_set
  new_set-IsQueue size h = record { same = refl; distinct = tt; bounded = omega arith }

  -- What an insertion into the set with the queue `q` of the size `n` shall give.
  record Refines {ℓe} {E : Type ℓe} (n : ℕ) (q : List T) (a : T)
      (out : BoundedHashSet T × Result E (Unit {0})) : Type (ℓ ⊔ ℓe) where
    ends : out.1 ≡ ok tt
    valid : IsQueue out.0
    same_size : out.0.size ≡ n
    recent : out.0.queue ≡ push_recent (n - 1) a q

  module _ {ℓe} {E : Type ℓe} (n : ℕ) (a : T) where
    make_room-below :
        (q : List T)
        → IsDistinct q
        → contains q a ≡ false
        → length q + 1 < n
        → Refines {E = E} n q a (make_room a (record { size = n; elems = q ++ a ∷ []; queue = q }))
    unfolding make_room
    make_room-below q d fresh h =
        let small : leb n (length (q ++ a ∷ [])) ≡ false =
          ground (arith, length-append q (a ∷ [])) in
        let none_dropped : length (q ++ a ∷ []) - (n - 1) ≡ 0 =
          omega (arith, length-append q (a ∷ [])) in
        rw small record {
          ends = refl;
          valid = record {
            same = refl;
            distinct = IsDistinct-snoc q a d fresh;
            bounded = omega (arith, length-append q (a ∷ []));
          };
          same_size = refl;
          recent = rw (fresh, none_dropped) refl;
        }

    make_room-full :
        (o : T) (rest : List T)
        → IsDistinct (o ∷ rest)
        → contains (o ∷ rest) a ≡ false
        → length rest + 2 ≡ n
        → Refines {E = E} n
            (o ∷ rest)
            a
            (make_room a (record { size = n; elems = o ∷ rest ++ a ∷ []; queue = o ∷ rest }))
    unfolding make_room contains
    make_room-full o rest d fresh h =
        let full : leb n (suc (length (rest ++ a ∷ []))) ≡ true =
          ground (arith, length-append rest (a ∷ [])) in
        let one_dropped : suc (length (rest ++ a ∷ [])) - (n - 1) ≡ 1 =
          omega (arith, length-append rest (a ∷ [])) in
        let last_fresh : contains rest a ≡ false = ground arith in
        let gone : HashSet.remove o (o ∷ rest ++ a ∷ []) ≡ rest ++ a ∷ [] = rw (==_refl o) (
          remove_absent o (rest ++ a ∷ [])
            (ground (arith, contains-append rest (a ∷ []) o, e.eq_iff a o, e.eq_iff o a, d.0))) in
        rw (full, gone)
          record {
            ends = refl;
            valid = record {
              same = refl;
              distinct = IsDistinct-snoc rest a d.1 last_fresh;
              bounded = omega (arith, length-append rest (a ∷ []));
            };
            same_size = refl;
            recent = rw (fresh, one_dropped) refl;
          }

    make_room-Refines :
        (q : List T)
        → 2 ≤ n
        → IsDistinct q
        → contains q a ≡ false
        → length q < n
        → Refines {E = E} n q a (make_room a (record { size = n; elems = q ++ a ∷ []; queue = q }))
    make_room-Refines q l d fresh h = elim (Bool-cases (ltb (length q + 1) n)) [
      | inl below ↦ make_room-below q d fresh (ground (arith, below))
      | inr full ↦
          elim q
              as (λ q.
                IsDistinct q
                → contains q a ≡ false
                → length q < n
                → n ≤ length q + 1
                → Refines {E = E} n q a
                    (make_room a (record { size = n; elems = q ++ a ∷ []; queue = q }))) [
                      | [] ↦ λ d fresh h full. absurd (omega arith)
                      | o ∷ rest ↦ λ d fresh h full. make_room-full o rest d fresh (omega arith)
                    ]
            d fresh h (ground (arith, full))
    ]

    insert_elem-old :
        (q : List T)
        → contains q a ≡ true
        → insert_elem {E = E} a (record { size = n; elems = q; queue = q })
          ≡ (record { size = n; elems = q; queue = q }, ok tt)
    unfolding insert_elem
    insert_elem-old q h = rw h refl

    insert_elem-fresh :
        (q : List T)
        → contains q a ≡ false
        → insert_elem {E = E} a (record { size = n; elems = q; queue = q })
          ≡ make_room a (record { size = n; elems = q ++ a ∷ []; queue = q })
    unfolding insert_elem HashSet.insert
    insert_elem-fresh q h = rw h refl

    insert_at :
        (q : List T)
        → 2 ≤ n
        → IsDistinct q
        → length q < n
        → Refines {E = E} n q a (insert_elem a (record { size = n; elems = q; queue = q }))
    insert_at q l d h = elim (Bool-cases (contains q a)) [
      | inl old ↦ rw (insert_elem-old q old) record {
        ends = refl;
        valid = record { same = refl; distinct = d; bounded = h };
        same_size = refl;
        recent = rw old refl;
      }
      | inr fresh ↦ rw (insert_elem-fresh q fresh) (make_room-Refines q l d fresh h)
    ]

  -- On a set of size at least 2, `insert` never panics; the set stays a queue without repetitions,
  -- shorter than the size, of the same size, and the queue is the old one if the element is there,
  -- and else the last `size - 1` of the old one and the element.
  pub insert_elem-refines {ℓe} :
      {E : Type ℓe} (a : T) (s : BoundedHashSet T)
      → 2 ≤ s.size
      → IsQueue s
      → let (s', r) = insert_elem {E = E} a s in
        (r ≡ ok tt)
        × IsQueue s'
        × (s'.size ≡ s.size)
        × (s'.queue ≡ push_recent (s.size - 1) a s.queue)
  insert_elem-refines {E} a s h w =
      let out =
        subst
          (λ x.
            Refines {E = E} s.size s.queue a
              (insert_elem a (record { size = s.size; elems = x; queue = s.queue })))
          (sym w.same) (insert_at s.size a s.queue h w.distinct w.bounded) in
      (out.ends, out.valid, out.same_size, out.recent)
