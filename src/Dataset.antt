-- ===== src/Dataset.antt =====
-- python/conflictgraph/dataset.py: the examples and how they are split. The shuffle and the rounding
-- of a fifth are parameters: `random.Random(seed).shuffle` and `int(n * 0.2)`.
pub mod Holdout
pub mod Groups
pub mod Build
pub mod Labels
use Prim.Native.Nat.{max}
use conflict_graph.Prelude.{
  ℕ, zero, suc, ◌+◌, Bool, true, false, not, ◌&&◌, ◌||◌, Option, none, some, List, [], ◌∷◌, ◌++◌,
  if◌then◌else◌, ◌==◌, ltb, leb, length, map, foldl, sort_by, keep, any, take, drop, is_empty,
  get_elem?, get_or, set, replicate, range, concat, nat_eq, same, min_from,
}
use conflict_graph.Prelude.Text.{Text, text_eq, text_lt, codes}
use conflict_graph.Prelude.Dict.{Dict, get, put}
use conflict_graph.Prelude.Sets.{contains, set_at}
use conflict_graph.Prelude.Float.{Float, nought, unit, lt, eq, fmax}
use conflict_graph.Types.Events.{of_ℕ}

pub record PairExample (F : Type 0) : Type 0 where
  pub test_a : Text
  pub test_b : Text
  pub features : List F
  pub label : ℕ
  pub confidence : F
  pub cause : Text
  pub split_group : Text
  pub resources : List Text

pub record DatasetMetadata (F : Type 0) : Type 0 where
  pub schema_version : Text
  pub created_at : Text
  pub seed : ℕ
  pub source_runs : List Text
  pub test_count : ℕ
  pub resource_count : ℕ
  pub example_count : ℕ
  pub positive_examples : ℕ
  pub negative_examples : ℕ
  pub feature_names : List Text
  pub trace_quality : F
  pub content_hash : Text

pub record Dataset (F : Type 0) : Type 0 where
  pub examples : List (PairExample F)
  pub metadata : DatasetMetadata F

pub record DatasetSplit : Type 0 where
  pub train : List ℕ
  pub validation : List ℕ
  pub test : List ℕ
  pub strategy : Text

-- How `validate` ends: with one of its three errors or without.
pub data Verdict : Type 0 where
  indices_overlap : Verdict
  index_out_of_range : Verdict
  pair_leakage : Verdict
  sound : Verdict

-- a & b, as a truth value
abbrev pub meets_in {ℓ} : {A : Type ℓ} → (A → List A → Bool) → List A → List A → Bool
meets_in has xs ys = any (λ x. has x ys) xs

abbrev pub any_two {ℓ} : {A : Type ℓ} → (A → List A → Bool) → List A → List A → List A → Bool
any_two has xs ys zs = meets_in has xs ys || (meets_in has xs zs || meets_in has ys zs)

-- max(1, int(len(remaining) * 0.2)) if remaining else 0
abbrev pub validation_size : (ℕ → ℕ) → List ℕ → ℕ
validation_size fifth remaining = if is_empty remaining then 0 else max 1 (fifth (length remaining))

module _ {F : Type 0} where
  abbrev group_or : Option (PairExample F) → Text
  group_or none = []
  group_or (some e) = e.split_group

  -- dataset.examples[index].split_group
  abbrev pub group_at : List (PairExample F) → ℕ → Text
  group_at examples index = group_or (get_elem? examples index)

  unfoldable pub validate_split : Dataset F → DatasetSplit → Verdict
  validate_split dataset s =
      let groups = map (group_at dataset.examples) in
      if any_two (λ i l. contains i l) s.train s.validation s.test
      then indices_overlap
      else if any (λ index. leb (length dataset.examples) index) (s.train ++ s.validation ++ s.test)
      then index_out_of_range
      else if any_two (λ g l. contains g l) (groups s.train) (groups s.validation) (groups s.test)
      then pair_leakage
      else sound

  abbrev held_out : List Text → Option (PairExample F) → Bool
  held_out causes none = false
  held_out causes (some e) = contains e.cause causes

  abbrev pub held_out_at : Dataset F → List Text → ℕ → Bool
  held_out_at dataset causes index = held_out causes (get_elem? dataset.examples index)

  unfoldable pub family_holdout_split :
      (List ℕ → List ℕ) → (ℕ → ℕ) → Dataset F → List Text → DatasetSplit
  family_holdout_split shuffle fifth dataset held_out_causes =
      let indices = range (length dataset.examples) in
      let test = keep (held_out_at dataset held_out_causes) indices in
      let remaining = shuffle (keep (λ index. not (contains index test)) indices) in
      let size = validation_size fifth remaining in
      record {
        train = sort_by ltb (drop size remaining);
        validation = sort_by ltb (take size remaining);
        test = sort_by ltb test;
        strategy = codes "conflict-family-holdout";
      }

-- by_group[example.split_group].append(index), from an index on
unfoldable pub grouped_from :
    {F : Type 0} → ℕ → Dict Text (List ℕ) → List (PairExample F) → Dict Text (List ℕ)
grouped_from index d [] = d
grouped_from index d (e ∷ examples) =
    grouped_from (suc index) (put e.split_group (set_at e.split_group d ++ index ∷ []) d) examples

pub record Filling : Type 0 where
  pub buckets : List (List ℕ)
  pub positives : List ℕ

abbrev pub no_filling : Filling
no_filling = record { buckets = [] ∷ [] ∷ [] ∷ []; positives = 0 ∷ 0 ∷ 0 ∷ [] }

module _ {F : Type 0} where
  abbrev pub label_or : Option (PairExample F) → ℕ
  label_or none = 0
  label_or (some e) = e.label

  -- sum(dataset.examples[index].label for index in indices)
  abbrev pub positives_in : Dataset F → List ℕ → ℕ
  positives_in dataset [] = 0
  positives_in dataset (index ∷ indices) =
      label_or (get_elem? dataset.examples index) + positives_in dataset indices

  abbrev pub by_group : Dataset F → Dict Text (List ℕ)
  by_group dataset = grouped_from 0 [] dataset.examples

  -- sorted(by_group)
  abbrev pub groups_of : Dataset F → List Text
  groups_of dataset = sort_by text_lt (map (λ p. p.0) (by_group dataset))

module _ {F : Type 0} ⦃fl : Float F⦄ (dataset : Dataset F) (ratios : List F) where
  open fl use {lit, add, sub, mul, div}

  -- size_pressure + positive_pressure
  unfoldable pub pressure : Filling → ℕ → F
  pressure st bucket =
      let ratio = get_or ratios bucket nought in
      let target = mul (of_ℕ (length dataset.examples)) ratio in
      let total = of_ℕ (max 1 dataset.metadata.positive_examples) in
      add (div (of_ℕ (length (get_or st.buckets bucket []))) (fmax unit target))
        (div (of_ℕ (get_or st.positives bucket 0)) (fmax unit (mul total ratio)))

  abbrev lighter : Filling → ℕ → ℕ → Bool
  lighter st a b = let x = pressure st a in let y = pressure st b in lt x y || eq x y && ltb a b

  -- min(scores)[1]
  unfoldable pub bucket_of : Filling → ℕ
  unfolding pressure
  bucket_of st = min_from (lighter st) 0 (1 ∷ 2 ∷ [])

  -- A turn of the loop over the groups.
  unfoldable pub fill : Filling → Text → Filling
  unfolding bucket_of grouped_from
  fill st group =
      let indices = set_at group (by_group dataset) in
      let bucket = bucket_of st in
      record {
        buckets = set st.buckets bucket (get_or st.buckets bucket [] ++ indices);
        positives =
            set st.positives bucket (get_or st.positives bucket 0 + positives_in dataset indices);
      }

  -- The split before it is validated.
  unfoldable pub assigned_split : (List Text → List Text) → DatasetSplit
  unfolding fill
  assigned_split shuffle =
      let st = foldl fill no_filling (shuffle (groups_of dataset)) in
      record {
        train = sort_by ltb (get_or st.buckets 0 []);
        validation = sort_by ltb (get_or st.buckets 1 []);
        test = sort_by ltb (get_or st.buckets 2 []);
        strategy = codes "pair-disjoint";
      }

  abbrev total_of : List F → F
  total_of = foldl add nought

  -- abs(sum(ratios) - 1.0) > 1e-9 or any(value <= 0 for value in ratios)
  unfoldable pub bad_ratios : Bool
  bad_ratios =
      let off = sub (total_of ratios) unit in
      lt (lit 1 9) (fmax off (sub nought off)) || any (λ value. fl.le value nought) ratios

  abbrev when_sound : DatasetSplit → Verdict → Option DatasetSplit
  when_sound s sound = some s
  when_sound s _ = none

  -- `none` is a ValueError.
  unfoldable pub pair_disjoint_split : (List Text → List Text) → Option DatasetSplit
  unfolding bad_ratios assigned_split validate_split
  pair_disjoint_split shuffle =
      let s = assigned_split shuffle in
      if bad_ratios then none else when_sound s (validate_split dataset s)
