-- ===== src/Database/Duplicates.antt =====
-- What the duplicate check finds (src/worker/src/db.rs).
use ginbar.Prelude.{
  ℕ, ◌+◌, ◌<◌, ◌≤◌, ◌≡◌, refl, sym, ◌↔◌, subst, inl, inr, false, not, List, [], ◌∷◌, map, arith,
  ltb, lt→ltb, keep, All, Bool-cases,
}
use mathlib.Core.List.{Memᴰ}
use ginbar.Prelude.Sorting.{IsSorted, sort_by-IsSorted, All-sort_by, mem-sort_by}
use ginbar.Database.Hamming.{
  bit_count, distance64_comm, distance64_self, distance64_zero, distance64-triangle,
}
use ginbar.Database.{Post, DuplicateRow, duplicate_row, hamming_distance, get_possible_duplicates}

abbrev pub distance : Post → Post → ℕ
distance p q = hamming_distance p.p_hash_0 p.p_hash_1 p.p_hash_2 p.p_hash_3 q

module _ (h0 h1 h2 h3 : ℕ) where
  -- A row of a post of the table that is not deleted and lies at a distance under 50.
  pub record IsNear (t : List Post) (row : DuplicateRow) : Type 0 where
    pub post : Post
    pub there : Memᴰ post t
    pub live : post.deleted ≡ false
    pub near : hamming_distance h0 h1 h2 h3 post < 50
    pub is_row : row ≡ duplicate_row h0 h1 h2 h3 post

  -- The rows that `WHERE` keeps, before they are ordered.
  abbrev candidates : List Post → List DuplicateRow
  candidates t =
      keep (λ r. ltb r.hamming_distance 50)
        (map (duplicate_row h0 h1 h2 h3) (keep (λ p. not p.deleted) t))

  mem-candidates_head :
      (p : Post) (t : List Post)
      → p.deleted ≡ false
      → hamming_distance h0 h1 h2 h3 p < 50
      → Memᴰ (duplicate_row h0 h1 h2 h3 p) (candidates (p ∷ t))
  mem-candidates_head p t live near = simp (live, lt→ltb _ _ near) (Memᴰ.head refl)

  mem-candidates_tail :
      (a : DuplicateRow) (q : Post) (t : List Post)
      → Memᴰ a (candidates t)
      → Memᴰ a (candidates (q ∷ t))
  mem-candidates_tail a q t m = elim (Bool-cases q.deleted) [
    | inl gone ↦ simp gone m
    | inr live ↦ elim (Bool-cases (ltb (hamming_distance h0 h1 h2 h3 q) 50)) [
      | inl near ↦ simp (live, near) (Memᴰ.tail m)
      | inr far ↦ simp (live, far) m
    ]
  ]

  mem-candidates :
      (p : Post) (t : List Post)
      → Memᴰ p t
      → p.deleted ≡ false
      → hamming_distance h0 h1 h2 h3 p < 50
      → Memᴰ (duplicate_row h0 h1 h2 h3 p) (candidates t)
  mem-candidates p [] m live near = elim m [ ]
  mem-candidates p (q ∷ t) (Memᴰ.head e) live near =
      subst (λ x. Memᴰ (duplicate_row h0 h1 h2 h3 p) (candidates (x ∷ t))) e
        (mem-candidates_head p t live near)
  mem-candidates p (q ∷ t) (Memᴰ.tail m) live near =
      mem-candidates_tail (duplicate_row h0 h1 h2 h3 p) q t (mem-candidates p t m live near)

  -- Only rows of such posts are kept, those of `t` and those before them in `whole`.
  candidates-IsNear :
      (whole t : List Post)
      → ((p : Post) → Memᴰ p t → Memᴰ p whole)
      → All (IsNear whole) (candidates t)
  candidates-IsNear whole [] sub = tt
  candidates-IsNear whole (q ∷ t) sub =
      let rest = candidates-IsNear whole t (λ p m. sub p (Memᴰ.tail m)) in
      elim (Bool-cases q.deleted) [
        | inl gone ↦ simp gone rest
        | inr live ↦ elim (Bool-cases (ltb (hamming_distance h0 h1 h2 h3 q) 50)) [
          | inl near ↦
              simp (live, near)
                (
                  record {
                    post = q;
                    there = sub q (Memᴰ.head refl);
                    live = live;
                    near = ground arith;
                    is_row = refl;
                  },
                  rest,
                )
          | inr far ↦ simp (live, far) rest
        ]
      ]

  mem-All :
      (P : DuplicateRow → Type 0) (row : DuplicateRow) (rows : List DuplicateRow)
      → All P rows
      → Memᴰ row rows
      → P row
  mem-All P row [] a m = elim m [ ]
  mem-All P row (r ∷ rows) a (Memᴰ.head e) = subst P (sym e) a.0
  mem-All P row (r ∷ rows) a (Memᴰ.tail m) = mem-All P row rows a.1 m

  near-is_reported :
      (t : List Post) (row : DuplicateRow)
      → IsNear t row
      → Memᴰ row (get_possible_duplicates h0 h1 h2 h3 t)
  unfolding get_possible_duplicates
  near-is_reported t row n =
      subst (λ r. Memᴰ r (get_possible_duplicates h0 h1 h2 h3 t)) (sym n.is_row)
        (mem-sort_by (λ r. r.hamming_distance) _ (candidates t)
          (mem-candidates n.post t n.there n.live n.near))

  -- The duplicate check returns its rows nearest first, and a row is among them exactly if it is that of
  -- a post of the table that is not deleted and lies at a distance under 50.
  pub get_possible_duplicates-exact :
      (t : List Post) (row : DuplicateRow)
      → IsSorted (λ r. r.hamming_distance) (get_possible_duplicates h0 h1 h2 h3 t)
        × (Memᴰ row (get_possible_duplicates h0 h1 h2 h3 t) ↔ IsNear t row)
  unfolding get_possible_duplicates
  get_possible_duplicates-exact t row = (
    sort_by-IsSorted (λ r. r.hamming_distance) (candidates t),
    (
      mem-All (IsNear t) row (get_possible_duplicates h0 h1 h2 h3 t) (
          All-sort_by (λ r. r.hamming_distance) (IsNear t) (candidates t)
            (candidates-IsNear t t λ p m. m)),
      near-is_reported t row,
    ),
  )

  -- A post of the table that is not deleted and whose stored hash is all zeros is reported as a duplicate
  -- of any image whose hash has fewer than 50 bits set.
  pub zero_hash_matches :
      (t : List Post) (p : Post)
      → Memᴰ p t
      → p.deleted ≡ false
      → p.p_hash_0 ≡ 0
      → p.p_hash_1 ≡ 0
      → p.p_hash_2 ≡ 0
      → p.p_hash_3 ≡ 0
      → bit_count 64 h0 + bit_count 64 h1 + bit_count 64 h2 + bit_count 64 h3 < 50
      → Memᴰ (duplicate_row h0 h1 h2 h3 p) (get_possible_duplicates h0 h1 h2 h3 t)
  zero_hash_matches t p m live z0 z1 z2 z3 few =
      near-is_reported t (duplicate_row h0 h1 h2 h3 p) (record {
        post = p;
        there = m;
        live = live;
        near =
            unfold hamming_distance in
            rw
              (
                z0,
                z1,
                z2,
                z3,
                distance64_zero h0,
                distance64_zero h1,
                distance64_zero h2,
                distance64_zero h3,
              )
              few;
        is_row = refl;
      })

sum_eq :
    {a b c d a' b' c' d' : ℕ}
    → a ≡ a'
    → b ≡ b'
    → c ≡ c'
    → d ≡ d'
    → a + b + c + d ≡ a' + b' + c' + d'
sum_eq e f g h = omega arith

sum_le :
    {a b c d : ℕ} (x y z w x' y' z' w' : ℕ)
    → a ≤ x + x'
    → b ≤ y + y'
    → c ≤ z + z'
    → d ≤ w + w'
    → a + b + c + d ≤ x + y + z + w + (x' + y' + z' + w')
sum_le x y z w x' y' z' w' e f g h = omega arith

-- The distance that the duplicate check compares is symmetric, is zero between posts with equal
-- hashes, and obeys the triangle inequality.
pub hamming_distance-metric :
    (p q r : Post)
    → (distance p q ≡ distance q p)
      × (distance p p ≡ 0)
      × (distance p r ≤ distance p q + distance q r)
unfolding hamming_distance
hamming_distance-metric p q r = (
  sum_eq (distance64_comm _ _) (distance64_comm _ _) (distance64_comm _ _) (distance64_comm _ _),
  sum_eq (distance64_self _) (distance64_self _) (distance64_self _) (distance64_self _),
  sum_le _ _ _ _ _ _ _ _ (distance64-triangle _ q.p_hash_0 _) (distance64-triangle _ q.p_hash_1 _)
      (distance64-triangle _ q.p_hash_2 _) (distance64-triangle _ q.p_hash_3 _),
)
