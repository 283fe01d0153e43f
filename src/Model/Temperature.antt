-- ===== src/Model/Temperature.antt =====
-- `TemperatureScaler` of python/conflictgraph/model.py, on lists in place of arrays. The functions
-- of numpy that it calls are a parameter.
pub mod Fitted
use conflict_graph.Prelude.{
  ◌≡◌, ◌⊎◌, refl, sym, ap, subst, Bool, not, ◌||◌, Option, none, some, List, [], ◌∷◌, map, foldl,
  any, length, length-map, is_empty, ◌==◌, if-some, if◌then◌else◌, All, Bool-cases, inl, inr, ◌∙◌,
}
use conflict_graph.Prelude.Float.{Float, IsOrdered, ◌≼◌, unit, lt, fmin, fmax}
use conflict_graph.Prelude.Order.{le-of_not_le, fmin-le_left, le-fmax_right}
use conflict_graph.Metrics.{zip}

pub record Numpy (F : Type 0) : Type 0 where
  pub log : F → F
  pub exp : F → F
  pub log1p : F → F
  pub neg : F → F
  pub mean : List F → F
  pub is_finite : F → Bool
  pub infinity : F
  -- np.geomspace(0.1, 10.0, 200)
  pub temperatures : List F

module _ {F : Type 0} ⦃fl : Float F⦄ where
  open fl use {lit, add, sub, mul, div}

  -- np.clip(x, low, high)
  abbrev pub clip : F → F → F → F
  clip x low high = fmin high (fmax x low)

  -- The temperature of a new scaler.
  abbrev pub new_temperature : F → F
  new_temperature temperature = fmax (lit 5 2) temperature

  abbrev pub smallest : F
  smallest = lit 1 9

  abbrev pub largest : F
  largest = sub unit (lit 1 9)

  -- The loop over the temperatures: the best one and its loss.
  abbrev pub try_temperature : (F → F) → F × F → F → F × F
  try_temperature loss best temperature =
      if lt (loss temperature) best.1 then (temperature, loss temperature) else best

  module _ (np : Numpy F) where
    unfoldable pub logit : F → F
    logit p = let held = clip p (lit 1 6) (sub unit (lit 1 6)) in np.log (div held (sub unit held))

    -- The loss of one example.
    unfoldable pub entropy : F → F × F → F
    entropy temperature (y, l) =
        let scaled = div unit (add unit (np.exp (div (np.neg l) temperature))) in
        add (mul y (np.log (add scaled (lit 1 12))))
          (mul (sub unit y) (np.log (add (sub unit scaled) (lit 1 12))))

    unfoldable pub loss_at : List F → List F → F → F
    unfolding logit entropy
    loss_at probabilities labels temperature =
        np.neg (np.mean (map (entropy temperature) (zip labels (map logit probabilities))))

    unfoldable pub best_temperature : (F → F) → F × F
    best_temperature loss = foldl (try_temperature loss) (unit, np.infinity) np.temperatures

    -- not np.all(np.isfinite(xs))
    abbrev pub has_infinite : List F → Bool
    has_infinite = any (λ x. not (np.is_finite x))

    -- `fit`: the temperature of the scaler after it; `none` is the ValueError.
    unfoldable pub fit : List F → List F → Option F
    unfolding loss_at best_temperature
    fit probabilities labels =
        if is_empty probabilities || not (length probabilities == length labels)
        then none
        else if has_infinite probabilities || has_infinite labels
        then none
        else some (best_temperature (loss_at probabilities labels)).0

    unfoldable pub calibrated : F → F → F
    unfolding logit
    calibrated temperature p =
        clip (div unit (add unit (np.exp (np.neg (div (logit p) temperature))))) smallest largest

    unfoldable pub transform : F → List F → Option (List F)
    unfolding calibrated
    transform temperature probabilities =
        if has_infinite probabilities
        then none
        else some (map (calibrated temperature) probabilities)
