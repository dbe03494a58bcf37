-- ===== src/Saliency/Search.antt =====
-- The search of `smart_crop` (src/worker/src/processing.rs) over the windows of the analysis image: it
-- ends, reads no energy outside the image, and finds the greatest.
use ginbar.Prelude.{
  ℕ, zero, suc, ◌+◌, ◌*◌, ◌%◌, ◌≤◌, ◌<◌, ◌≡◌, refl, sym, ap, subst, ◌∙◌, ◌⊎◌, inl, inr, Bool-cases,
  some, arith, ltb,
}
use ginbar.Saliency.{Best, Windows, better, search_row, search_rows}

-- What has been found at some corner.
record Grows (x y energy : ℕ) (best found : Best) : Type 0 where
  pub keeps : best.energy ≤ found.energy
  pub covers : energy ≤ found.energy
  pub source : (found ≡ best) ⊎ ((found.x ≡ x) × (found.y ≡ y) × (found.energy ≡ energy))

better-Grows : (x y energy : ℕ) (best : Best) → Grows x y energy best (better x y energy best)
unfolding better
better-Grows x y energy best = elim (Bool-cases (ltb best.energy energy)) [
  | inl e ↦
      rw e (record { keeps = ground arith; covers = omega arith; source = inr (refl, refl, refl) })
  | inr e ↦ rw e (record { keeps = omega arith; covers = ground arith; source = inl refl })
]

module _ (v : Windows) where
  -- A corner at which the window lies in the image.
  abbrev pub Fits : ℕ → ℕ → Type 0
  Fits x y = (x + v.crop_w ≤ v.width) × (y + v.crop_h ≤ v.height)

  module _ (y : ℕ) (energy : ℕ → ℕ) where
    -- The row has been searched from `x` on.
    pub record SweepsRow (x : ℕ) (best found : Best) : Type 0 where
      pub keeps : best.energy ≤ found.energy
      pub covers : (i : ℕ) → x + 2 * i + v.crop_w ≤ v.width → energy (x + 2 * i) ≤ found.energy
      pub source :
          (found ≡ best)
          ⊎ ((found.y ≡ y)
              × (found.x + v.crop_w ≤ v.width)
              × (found.energy ≡ energy found.x)
              × (found.x % 2 ≡ x % 2))

    first-covers :
        (x : ℕ) (found : Best)
        → energy x ≤ found.energy
        → v.width < x + 2 + v.crop_w
        → (i : ℕ) → x + 2 * i + v.crop_w ≤ v.width
        → energy (x + 2 * i) ≤ found.energy
    first-covers x found c h zero k =
        let e : x ≡ x + 2 * 0 = omega arith in subst (λ z. energy z ≤ found.energy) e c
    first-covers x found c h (suc i) k = absurd (omega arith)

    next-covers :
        (x : ℕ) (found : Best)
        → energy x ≤ found.energy
        → ((i : ℕ) → x + 2 + 2 * i + v.crop_w ≤ v.width → energy (x + 2 + 2 * i) ≤ found.energy)
        → (i : ℕ) → x + 2 * i + v.crop_w ≤ v.width
        → energy (x + 2 * i) ≤ found.energy
    next-covers x found c h zero k =
        let e : x ≡ x + 2 * 0 = omega arith in subst (λ z. energy z ≤ found.energy) e c
    next-covers x found c h (suc i) k =
        let e : x + 2 + 2 * i ≡ x + 2 * suc i = omega arith in
        subst (λ z. energy z ≤ found.energy) e (h i (omega arith))

    row_source :
        (x : ℕ) (best found last : Best)
        → x + v.crop_w ≤ v.width
        → Grows x y (energy x) best found
        → (last ≡ found)
          ⊎ ((last.y ≡ y)
              × (last.x + v.crop_w ≤ v.width)
              × (last.energy ≡ energy last.x)
              × (last.x % 2 ≡ (x + 2) % 2))
        → (last ≡ best)
          ⊎ ((last.y ≡ y)
              × (last.x + v.crop_w ≤ v.width)
              × (last.energy ≡ energy last.x)
              × (last.x % 2 ≡ x % 2))
    row_source x best found last fits g (inr (sy, sf, se, sp)) = inr (sy, sf, se, omega (arith, sp))
    row_source x best found last fits g (inl e) = elim g.source [
      | inl s ↦ inl (e ∙ s)
      | inr (sx, sy, se) ↦ inr (
        ap (λ b. b.y) e ∙ sy,
        subst (λ z. z + v.crop_w ≤ v.width) (sym (ap (λ b. b.x) e ∙ sx)) fits,
        ap (λ b. b.energy) e ∙ (se ∙ ap energy (sym (ap (λ b. b.x) e ∙ sx))),
        ap (λ n. n % 2) (ap (λ b. b.x) e ∙ sx),
      )
    ]

    pub search_row-SweepsRow :
        ((x : ℕ) → x + v.crop_w ≤ v.width → v.energy x y ≡ some (energy x))
        → (fuel x : ℕ) (best : Best) → x ≤ v.width
        → v.width < x + fuel
        → (found : Best) × (search_row v y fuel x best ≡ some found) × SweepsRow x best found
    unfolding search_row
    search_row-SweepsRow total zero x best h l = absurd (omega arith)
    search_row-SweepsRow total (suc fuel) x best h l =
        elim (Bool-cases (ltb v.width (x + v.crop_w))) [
          | inl e ↦ rw e (
            best,
            refl,
            record {
              keeps = omega arith;
              covers = λ i k. absurd (ground arith);
              source = inl refl;
            },
          )
          | inr e ↦
              let fits : x + v.crop_w ≤ v.width = ground arith in
              let found = better x y (energy x) best in
              let g = better-Grows x y (energy x) best in
              elim (Bool-cases (ltb v.width (x + 2 + v.crop_w))) [
                | inl e' ↦ (
                  found,
                  ground (arith, total x fits),
                  record {
                    keeps = g.keeps;
                    covers = first-covers x found g.covers (ground arith);
                    source = row_source x best found found fits g (inl refl);
                  },
                )
                | inr e' ↦
                    let (last, q, s) =
                      search_row-SweepsRow total fuel (x + 2) found (ground arith) (omega arith) in
                    (
                      last,
                      ground (arith, total x fits, q),
                      record {
                        keeps = omega (arith, g.keeps, s.keeps);
                        covers = next-covers x last (omega (arith, g.covers, s.keeps)) s.covers;
                        source = row_source x best found last fits g s.source;
                      },
                    )
              ]
        ]

  module _ (energy : ℕ → ℕ → ℕ)
      (total : (x y : ℕ) → Fits x y → v.energy x y ≡ some (energy x y)) where
    -- What a window that was found is: one that fits, with its own energy, in an even column and some
    -- even number of rows from `y`.
    abbrev pub IsWindow : ℕ → Best → Type 0
    IsWindow y b = Fits b.x b.y × (b.energy ≡ energy b.x b.y) × (b.x % 2 ≡ 0) × (b.y % 2 ≡ y % 2)

    -- The rows have been searched from `y` on.
    pub record SweepsRows (y : ℕ) (best found : Best) : Type 0 where
      pub keeps : best.energy ≤ found.energy
      pub covers : (i j : ℕ) → Fits (2 * i) (y + 2 * j) → energy (2 * i) (y + 2 * j) ≤ found.energy
      pub source : (found ≡ best) ⊎ IsWindow y found

    row_lem :
        (y : ℕ) (best : Best)
        → y + v.crop_h ≤ v.height
        → (found : Best) × (search_row v y (suc v.width) 0 best ≡ some found)
          × SweepsRow y (λ x. energy x y) 0 best found
    row_lem y best h =
        search_row-SweepsRow y (λ x. energy x y) (λ x k. total x y (k, h)) (suc v.width) 0 best
          (omega arith) (omega arith)

    row_covers :
        (y : ℕ) (best found : Best)
        → SweepsRow y (λ x. energy x y) 0 best found
        → (i : ℕ) → 2 * i + v.crop_w ≤ v.width
        → energy (2 * i) y ≤ found.energy
    row_covers y best found s i k =
        let e : 0 + 2 * i ≡ 2 * i = omega arith in
        subst (λ z. energy z y ≤ found.energy) e (s.covers i (omega arith))

    rows_source :
        (y : ℕ) (best found last : Best)
        → y + v.crop_h ≤ v.height
        → SweepsRow y (λ x. energy x y) 0 best found
        → (last ≡ found) ⊎ IsWindow (y + 2) last
        → (last ≡ best) ⊎ IsWindow y last
    rows_source y best found last fits s (inr (tf, te, tx, ty)) =
        inr (tf, te, tx, omega (arith, ty))
    rows_source y best found last fits s (inl e) = elim s.source [
      | inl t ↦ inl (e ∙ t)
      | inr (ty, tx, te, tp) ↦ inr (
          subst (IsWindow y) (sym e) (
            (tx, subst (λ z. z + v.crop_h ≤ v.height) (sym ty) fits),
            te ∙ ap (energy found.x) (sym ty),
            omega (arith, tp),
            ap (λ n. n % 2) ty,
          ))
    ]

    covers_below :
        (y : ℕ) (best found last : Best)
        → SweepsRow y (λ x. energy x y) 0 best found
        → found.energy ≤ last.energy
        → ((i j : ℕ) → Fits (2 * i) (y + 2 + 2 * j) → energy (2 * i) (y + 2 + 2 * j) ≤ last.energy)
        → (i j : ℕ) → Fits (2 * i) (y + 2 * j)
        → energy (2 * i) (y + 2 * j) ≤ last.energy
    covers_below y best found last s le h i zero k =
        let e : y ≡ y + 2 * 0 = omega arith in
        subst (λ z. energy (2 * i) z ≤ last.energy) e
          (omega (arith, row_covers y best found s i k.0, le))
    covers_below y best found last s le h i (suc j) k =
        let e : y + 2 + 2 * j ≡ y + 2 * suc j = omega arith in
        subst (λ z. energy (2 * i) z ≤ last.energy) e (h i j (k.0, omega (arith, k.1)))

    pub search_rows-SweepsRows :
        (fuel y : ℕ) (best : Best)
        → y ≤ v.height
        → v.height < y + fuel
        → (found : Best) × (search_rows v fuel y best ≡ some found) × SweepsRows y best found
    unfolding search_rows
    search_rows-SweepsRows zero y best h l = absurd (omega arith)
    search_rows-SweepsRows (suc fuel) y best h l = elim (Bool-cases (ltb v.height (y + v.crop_h))) [
      | inl e ↦ rw e (
        best,
        refl,
        record {
          keeps = omega arith;
          covers = λ i j k. absurd (ground (arith, k));
          source = inl refl;
        },
      )
      | inr e ↦
          let fits : y + v.crop_h ≤ v.height = ground arith in
          let (found, q, s) = row_lem y best fits in
          elim (Bool-cases (ltb v.height (y + 2 + v.crop_h))) [
            | inl e' ↦ (
              found,
              ground (arith, q),
              record {
                keeps = s.keeps;
                covers =
                    covers_below y best found found s (omega arith)
                      λ i j k. absurd (ground (arith, k));
                source = rows_source y best found found fits s (inl refl);
              },
            )
            | inr e' ↦
                let (last, q', t) =
                  search_rows-SweepsRows fuel (y + 2) found (ground arith) (omega arith) in
                (
                  last,
                  ground (arith, q, q'),
                  record {
                    keeps = omega (arith, s.keeps, t.keeps);
                    covers = covers_below y best found last s t.keeps t.covers;
                    source = rows_source y best found last fits s t.source;
                  },
                )
          ]
    ]
