-- ===== src/Model/Temperature/Fitted.antt =====
-- The temperature that the loop of `TemperatureScaler.fit` ends with, and the calibrated
-- probabilities.
use mathlib.Core.List.{Memᴰ}
use conflict_graph.Prelude.{
  ◌≡◌, ◌⊎◌, refl, sym, ap, subst, not, ◌||◌, some, List, [], ◌∷◌, map, foldl, length, length-map,
  is_empty, ◌==◌, if-some, All, Bool-cases, inl, inr, ◌∙◌,
}
use conflict_graph.Prelude.Float.{Float, IsOrdered, ◌≼◌, unit, fmax}
use conflict_graph.Prelude.Order.{le-of_not_le, fmin-le_left, le-fmax_right}
use conflict_graph.Model.Temperature.{
  Numpy, clip, smallest, largest, try_temperature, loss_at, best_temperature, has_infinite, fit,
  calibrated, transform,
}

module _ {F : Type 0} ⦃fl : Float F⦄ where
  module _ (o : IsOrdered F) where
    -- The temperature has the least loss of those tried; or it is 1, and none has a loss below the
    -- start.
    abbrev pub IsBest : (F → F) → F → List F → F → Type 0
    IsBest loss start tried t =
        (Memᴰ t tried × All (λ g. loss t ≼ loss g) tried)
        ⊎ ((t ≡ unit) × All (λ g. start ≼ loss g) tried)

    module _ (loss : F → F) where
      -- What the loop over `tried` makes of the best so far.
      record Improves (best : F × F) (tried : List F) (after : F × F) : Type 0 where
        pub below_best : after.1 ≼ best.1
        pub below_all : All (λ g. after.1 ≼ loss g) tried
        pub origin : (after ≡ best) ⊎ (Memᴰ after.0 tried × (after.1 ≡ loss after.0))

      try_temperature-Improves :
          (best : F × F) (g : F) → Improves best (g ∷ []) (try_temperature loss best g)
      try_temperature-Improves best g = elim (Bool-cases (fl.le best.1 (loss g))) [
        | inl e ↦
            rw e (record { below_best = o.le_refl best.1; below_all = (e, tt); origin = inl refl })
        | inr e ↦ rw e (record {
          below_best = le-of_not_le o (loss g) best.1 e;
          below_all = (o.le_refl (loss g), tt);
          origin = inr (Memᴰ.head refl, refl);
        })
      ]

      Mem-one : (g : F) (grid : List F) {t : F} → Memᴰ t (g ∷ []) → Memᴰ t (g ∷ grid)
      Mem-one g grid (Memᴰ.head e) = Memᴰ.head e
      Mem-one g grid (Memᴰ.tail m) = elim m [ ]

      first_origin :
          (best b after : F × F) (g : F) (grid : List F)
          → after ≡ b
          → ((b ≡ best) ⊎ (Memᴰ b.0 (g ∷ []) × (b.1 ≡ loss b.0)))
          → ((after ≡ best) ⊎ (Memᴰ after.0 (g ∷ grid) × (after.1 ≡ loss after.0)))
      first_origin best b after g grid e (inl q) = inl (e ∙ q)
      first_origin best b after g grid e (inr (m, q)) =
          subst (λ x. (x ≡ best) ⊎ (Memᴰ x.0 (g ∷ grid) × (x.1 ≡ loss x.0))) (sym e)
            (inr (Mem-one g grid m, q))

      search-Improves :
          (best : F × F) (grid : List F)
          → Improves best grid (foldl (try_temperature loss) best grid)
      search-Improves best [] = record {
        below_best = o.le_refl best.1;
        below_all = tt;
        origin = inl refl;
      }
      search-Improves best (g ∷ grid) =
          let one = try_temperature-Improves best g in
          let b = try_temperature loss best g in
          let rest = search-Improves b grid in
          let after = foldl (try_temperature loss) b grid in
          record {
            below_best = o.le_trans after.1 b.1 best.1 rest.below_best one.below_best;
            below_all =
                (o.le_trans after.1 b.1 (loss g) rest.below_best one.below_all.0, rest.below_all);
            origin = elim (rest.origin) [
              | inl e ↦ first_origin best b after g grid e one.origin
              | inr (m, e) ↦ inr (Memᴰ.tail m, e)
            ];
          }

      loop-IsBest :
          (start : F) (grid : List F)
          → IsBest loss start grid (foldl (try_temperature loss) (unit, start) grid).0
      loop-IsBest start grid =
          let i = search-Improves (unit, start) grid in
          let after = foldl (try_temperature loss) (unit, start) grid in
          elim (i.origin) [
            | inl e ↦ inr (
              ap (λ x. x.0) e,
              subst (λ x. All (λ g. x ≼ loss g) grid) (ap (λ x. x.1) e) i.below_all,
            )
            | inr (m, e) ↦ inl (m, subst (λ x. All (λ g. x ≼ loss g) grid) e i.below_all)
          ]

    clip-bounds : (x low high : F) → low ≼ high → (low ≼ clip x low high) × (clip x low high ≼ high)
    clip-bounds x low high h = (
      elim (Bool-cases (fl.le high (fmax x low))) [
        | inl e ↦ rw e h
        | inr e ↦ rw e (le-fmax_right o x low)
      ],
      fmin-le_left o high (fmax x low),
    )

    All-clipped :
        (f : F → F) (low high : F) (xs : List F)
        → low ≼ high
        → All (λ p. (low ≼ p) × (p ≼ high)) (map (λ x. clip (f x) low high) xs)
    All-clipped f low high [] h = tt
    All-clipped f low high (x ∷ xs) h = (clip-bounds (f x) low high h, All-clipped f low high xs h)

    module _ (np : Numpy F) where
      -- When `fit` returns: its temperature is one of those tried, and none of the others has a
      -- smaller loss on the given probabilities and labels; or it is 1, and then the loss of none is
      -- below infinity.
      pub fit-IsBest :
          (probabilities labels : List F) (t : F)
          → fit np probabilities labels ≡ some t
          → IsBest (loss_at np probabilities labels) np.infinity np.temperatures t
      unfolding fit
      fit-IsBest probabilities labels t h =
          let loss = loss_at np probabilities labels in
          let unequal = is_empty probabilities || not (length probabilities == length labels) in
          let e =
            if-some (has_infinite np probabilities || has_infinite np labels) _
              (if-some unequal _ h) in
          let q : (best_temperature np loss).0 ≡ t = cc in
          subst (IsBest loss np.infinity np.temperatures) q
            (loop-IsBest loss np.infinity np.temperatures)

      -- The calibrated probabilities lie between 1e-9 and 1 - 1e-9, as many as were given.
      pub transform-bounds :
          (temperature : F) (probabilities calibrated_ones : List F)
          → ◌≼◌ {F = F} smallest largest
          → transform np temperature probabilities ≡ some calibrated_ones
          → All (λ p. (smallest ≼ p) × (p ≼ largest)) calibrated_ones
            × (length calibrated_ones ≡ length probabilities)
      unfolding transform
      transform-bounds temperature probabilities calibrated_ones h e =
          let q = if-some (has_infinite np probabilities) _ e in
          let made : map (calibrated np temperature) probabilities ≡ calibrated_ones = cc in
          subst
            (λ qs.
              All (λ p. (smallest ≼ p) × (p ≼ largest)) qs × (length qs ≡ length probabilities))
            made
            (
              All-clipped _ smallest largest probabilities h,
              length-map (calibrated np temperature) probabilities,
            )
