-- ===== src/Dataset/Groups.antt =====
-- The split by pairs keeps groups whole.
use mathlib.Core.List.Perm
use mathlib.Core.List.{perm_middle}
use conflict_graph.Prelude.{
  ℕ, zero, suc, ◌<◌, ◌≡◌, refl, sym, ap, ◌∙◌, List, [], ◌∷◌, ◌++◌, length, map, foldl, get_or, set,
  concat, Perm, Perm-of_eq, concat-set_snoc, append-nil, append_assoc, arith, sort_by, sort_by-perm,
  ltb, length-set,
}
use conflict_graph.Prelude.Text.{Text, text_eq}
use conflict_graph.Prelude.Sets.{set_at}
use conflict_graph.Prelude.Float.{Float}
use conflict_graph.Scheduler.Removal.{get_elem?-get_or}
use conflict_graph.Dataset.{
  Dataset, Filling, no_filling, by_group, groups_of, bucket_of, fill, assigned_split,
}

map-set :
    {A B : Type 0} (f : A → B) (xs : List A) (i : ℕ) (v : A)
    → map f (set xs i v) ≡ set (map f xs) i (f v)
map-set f [] i v = refl
map-set f (x ∷ xs) zero v = refl
map-set f (x ∷ xs) (suc i) v = ap (λ l. f x ∷ l) (map-set f xs i v)

map-get_or :
    {A B : Type 0} (f : A → B) (xs : List A) (i : ℕ) (d : A)
    → get_or (map f xs) i (f d) ≡ f (get_or xs i d)
map-get_or f [] i d = refl
map-get_or f (x ∷ xs) zero d = refl
map-get_or f (x ∷ xs) (suc i) d = map-get_or f xs i d

module _ {F : Type 0} ⦃fl : Float F⦄ (dataset : Dataset F) (ratios : List F) where
  -- The indices of some groups, one group after the other.
  abbrev pub flat : List Text → List ℕ
  flat groups = concat (map (λ group. set_at group (by_group dataset)) groups)

  flat-snoc :
      (groups : List Text) (group : Text)
      → flat (groups ++ group ∷ []) ≡ flat groups ++ set_at group (by_group dataset)
  flat-snoc [] group = append-nil (set_at group (by_group dataset))
  flat-snoc (g ∷ groups) group =
      ap (λ l. set_at g (by_group dataset) ++ l) (flat-snoc groups group)
      ∙ sym (
          append_assoc (set_at g (by_group dataset)) (flat groups)
            (set_at group (by_group dataset)))

  bucket_of-bound : (st : Filling) → bucket_of dataset ratios st < 3
  unfolding bucket_of
  bucket_of-bound st = ground arith

  set-flat :
      (assigned : List (List Text)) (b : ℕ) (group : Text)
      → set
          (map flat assigned)
          b
          (get_or (map flat assigned) b [] ++ set_at group (by_group dataset))
        ≡ map flat (set assigned b (get_or assigned b [] ++ group ∷ []))
  set-flat assigned b group =
      ap (λ l. set (map flat assigned) b (l ++ set_at group (by_group dataset)))
        (map-get_or flat assigned b [])
      ∙ (ap (set (map flat assigned) b) (sym (flat-snoc (get_or assigned b []) group))
          ∙ sym (map-set flat assigned b (get_or assigned b [] ++ group ∷ [])))

  -- The buckets are made of whole groups.
  record IsWhole (done : List Text) (st : Filling) : Type 0 where
    assigned : List (List Text)
    three : length assigned ≡ 3
    flattened : st.buckets ≡ map flat assigned
    all_done : Perm (concat assigned) done

  fill-IsWhole :
      (done : List Text) (st : Filling) (group : Text)
      → IsWhole done st
      → IsWhole (group ∷ done) (fill dataset ratios st group)
  unfolding fill
  fill-IsWhole done st group w =
      let b = bucket_of dataset ratios st in
      let old = get_or w.assigned b [] in
      let inside : b < length w.assigned = rw w.three (bucket_of-bound st) in
      record {
        assigned = set w.assigned b (old ++ group ∷ []);
        three = length-set w.assigned b (old ++ group ∷ []) ∙ w.three;
        flattened =
            ap (λ x. set x b (get_or x b [] ++ set_at group (by_group dataset))) w.flattened
            ∙ set-flat w.assigned b group;
        all_done =
            Perm.trans
              (concat-set_snoc w.assigned b group (get_elem?-get_or w.assigned b [] inside))
              (Perm.cons group w.all_done);
      }

  foldl-fill-IsWhole :
      (groups done : List Text) (st : Filling)
      → IsWhole done st
      → (end : List Text) × IsWhole end (foldl (fill dataset ratios) st groups)
        × Perm end (groups ++ done)
  foldl-fill-IsWhole [] done st w = (done, w, Perm.refl done)
  foldl-fill-IsWhole (group ∷ groups) done st w =
      let (end, whole, same) =
        foldl-fill-IsWhole groups (group ∷ done) (fill dataset ratios st group)
          (fill-IsWhole done st group w) in
      (end, whole, Perm.trans same (perm_middle groups done))

  start-IsWhole : IsWhole [] no_filling
  start-IsWhole = record {
    assigned = [] ∷ [] ∷ [] ∷ [];
    three = refl;
    flattened = refl;
    all_done = Perm.refl [];
  }

  -- With a shuffle that permutes, the split by pairs keeps groups whole: its three parts are the
  -- indices of three lists of groups, which together have every group of the dataset once.
  pub assigned_split-whole :
      (shuffle : List Text → List Text)
      → ((xs : List Text) → Perm (shuffle xs) xs)
      → let s = assigned_split dataset ratios shuffle in
        (parts : List (List Text)) × (length parts ≡ 3)
        × Perm (concat parts) (groups_of dataset)
        × Perm s.train (flat (get_or parts 0 []))
        × Perm s.validation (flat (get_or parts 1 []))
        × Perm s.test (flat (get_or parts 2 []))
  unfolding assigned_split
  assigned_split-whole shuffle permutes =
      let (end, w, same) =
        foldl-fill-IsWhole (shuffle (groups_of dataset)) [] no_filling start-IsWhole in
      let part : (i : ℕ)
          → Perm
              (sort_by ltb (
                get_or
                  (foldl (fill dataset ratios) no_filling (shuffle (groups_of dataset))).buckets i
                  []))
              (flat (get_or w.assigned i [])) =
        λ i.
          Perm.trans (sort_by-perm ltb _)
            (Perm-of_eq (ap (λ l. get_or l i []) w.flattened ∙ map-get_or flat w.assigned i [])) in
      (
        w.assigned,
        w.three,
        Perm.trans w.all_done (
            Perm.trans same (
              Perm.trans (Perm-of_eq (append-nil (shuffle (groups_of dataset))))
                (permutes (groups_of dataset)))),
        part 0,
        part 1,
        part 2,
      )
