-- ===== src/Scheduler/Queue.antt =====
-- The order in which `static_schedule` of python/conflictgraph/scheduler.py takes the tests.
use conflict_graph.Prelude.{
  ℕ, suc, Bool, ◌&&◌, ◌||◌, Option, none, some, List, [], ◌∷◌, map, foldl, sort_by,
}
use conflict_graph.Prelude.Text.{Text, text_eq, text_lt}
use conflict_graph.Prelude.Dict.{Dict, get, put}
use conflict_graph.Prelude.Float.{Float, nought, lt, eq, fmax}
use conflict_graph.Types.Stats.{TestIdentity, TestStats, default_stats}

-- {k(x): v(x) for x in xs}
unfoldable pub dict_of : {A V : Type 0} → (A → Text) → (A → V) → List A → Dict Text V
dict_of k v = foldl (λ d x. put (k x) (v x) d) []

unfoldable pub identities_of : List TestIdentity → Dict Text TestIdentity
unfolding dict_of
identities_of tests = dict_of (λ test. test.id) (λ test. test) tests

module _ {F : Type 0} ⦃fl : Float F⦄ where
  open fl use {lit}

  abbrev stats_or_default : Option (TestStats F) → TestStats F
  stats_or_default none = default_stats
  stats_or_default (some s) = s

  -- max(0.001, stats.get(test.id, TestStats()).duration_ema)
  unfoldable pub duration_of : Dict Text (TestStats F) → TestIdentity → F
  duration_of stats test = fmax (lit 1 3) (stats_or_default (get test.id stats)).duration_ema

  -- One draw of the random generator for each test, in order.
  unfoldable pub ties_from : (ℕ → F) → ℕ → Dict Text F → List TestIdentity → Dict Text F
  ties_from draw n d [] = d
  ties_from draw n d (test ∷ tests) = ties_from draw (suc n) (put test.id (draw n) d) tests

  abbrev number_or_nought : Option F → F
  number_or_nought none = nought
  number_or_nought (some x) = x

  -- durations[test_id] and tie[test_id], where each test has an entry
  abbrev pub entry : Dict Text F → Text → F
  entry d test_id = number_or_nought (get test_id d)

  -- (-durations[a], tie[a], a) < (-durations[b], tie[b], b)
  unfoldable pub longer_first : Dict Text F → Dict Text F → Text → Text → Bool
  longer_first durations tie a b =
      let da = entry durations a in
      let db = entry durations b in
      let ta = entry tie a in
      let tb = entry tie b in lt db da || eq da db && (lt ta tb || eq ta tb && text_lt a b)

  unfoldable pub durations_of : Dict Text (TestStats F) → List TestIdentity → Dict Text F
  unfolding duration_of dict_of
  durations_of stats tests = dict_of (λ test. test.id) (duration_of stats) tests

  unfoldable pub queue_of : (ℕ → F) → Dict Text (TestStats F) → List TestIdentity → List Text
  unfolding durations_of identities_of ties_from longer_first
  queue_of draw stats tests =
      sort_by (longer_first (durations_of stats tests) (ties_from draw 0 [] tests))
        (map (λ p. p.0) (identities_of tests))
