-- ===== src/Samples/Artifacts.antt =====
-- A store of two artifacts whose values are texts, printed as they are.
use conflict_graph.Prelude.{
  ℕ, ◌≡◌, ◌≢◌, ap, arith, ◌↔◌, ◌-◌, ◌&&◌, refl, Bool, true, Option, some, [], ◌∷◌, leb, take,
  length,
}
use conflict_graph.Prelude.Int.{pos}
use conflict_graph.Prelude.Text.{Text, codes}
use conflict_graph.Storage.{Files, returned, json_path, write_temporary, save, load, list_artifacts}
use conflict_graph.Storage.Names.{IsSafe}
use conflict_graph.Storage.Saved.{save-returned_iff, load-save, load-write_temporary}
use conflict_graph.Storage.Stored.{stored}

abbrev pub lower_case : ℕ → Bool
lower_case c = leb 97 c && leb c 122

abbrev printed_as : Text → Option Text
printed_as text = some text

-- The text without the newline at its end.
abbrev read_as : Text → Option Text
read_as text = some (take (length text - 1) text)

abbrev an_object : Text → Bool
an_object text = true

abbrev runs : Text
runs = codes "runs"

abbrev before : Files
before = (json_path runs (codes "a"), record { content = codes "{}\n"; modified = 3 }) ∷ []

abbrev after : Files
after = stored 7 runs (codes "b") (codes "{1}") before

saved : save lower_case printed_as 7 runs (codes "b") (codes "{1}") before ≡ returned after
unfolding save write_temporary
saved = refl

listed :
    list_artifacts lower_case read_as an_object runs (pos 5) after
    ≡ returned (codes "{1}" ∷ codes "{}" ∷ [])
unfolding list_artifacts write_temporary
listed = refl

first_character : Text × Text → ℕ
first_character (c, []) = 0
first_character (c, x ∷ i) = x

apart : ◌≢◌ {A = Text × Text} (runs, codes "a") (runs, codes "b")
unfolding first_character
apart h = let e : ◌≡◌ {A = ℕ} 97 98 = ap first_character h in omega arith

load-save_example :
    (load lower_case read_as an_object runs (codes "b") after ≡ returned (some (codes "{1}")))
    × (load lower_case read_as an_object runs (codes "a") after
        ≡ load lower_case read_as an_object runs (codes "a") before)
load-save_example =
    load-save lower_case printed_as read_as an_object 7 runs (codes "b") runs (codes "a")
      (codes "{1}") before after saved (λ text e. let q : codes "{1}" ≡ text = cc in rw (← q) refl)
      refl apart

save-returned_iff_example :
    ((files : Files) × (save lower_case printed_as 7 runs (codes "b") (codes "{1}") before
        ≡ returned files))
    ↔ (IsSafe lower_case runs
        × IsSafe lower_case (codes "b")
        × ((text : Text) × (printed_as (codes "{1}") ≡ some text)))
save-returned_iff_example =
    save-returned_iff lower_case printed_as 7 runs (codes "b") (codes "{1}") before

load-write_temporary_example :
    load lower_case read_as an_object runs
      (codes "a")
      (write_temporary 7 runs (codes "a") (codes "{") before)
    ≡ load lower_case read_as an_object runs (codes "a") before
load-write_temporary_example =
    load-write_temporary lower_case printed_as read_as an_object 7 runs (codes "a") runs (codes "a")
      (codes "{") before
