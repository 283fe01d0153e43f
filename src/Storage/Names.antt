-- ===== src/Storage/Names.antt =====
-- The file names of `ArtifactStore`, and what moving a file does to the lookups.
use mathlib.Core.List.{append_cancel_right}
use conflict_graph.Prelude.{
  ℕ, ◌≡◌, refl, subst, sym, ap, Bool, true, false, not, ◌||◌, none, some, [], ◌∷◌, ◌++◌, keep,
  is_empty, same, same_iff, nat_eq, pair_eq, if◌then◌else◌, Bool-cases, inl, inr, arith, All, ◌∙◌,
  ◌≢◌, ◌⊎◌, ◌≤◌, length, drop, if_ind, suc,
}
use conflict_graph.Prelude.Text.{Text, text_eq, codes}
use conflict_graph.Prelude.Dict.{get, get-put}
use conflict_graph.Storage.{
  File, Files, Answer, raised, returned, unsafe, without, moved, replace, json_path, temporary_path,
  safe_character, safe_segment,
}

last : ℕ → Text → ℕ
last d [] = d
last d (x ∷ xs) = last x xs

last-append : (d e : ℕ) (s t : Text) (x : ℕ) → last d (s ++ x ∷ t) ≡ last e (x ∷ t)
unfolding last
last-append d e [] t x = refl
last-append d e (y ∷ s) t x = last-append y e s t x

apart : ◌≢◌ {A = ℕ} 110 112
apart h = omega arith

-- No name that `save` gives to an artifact is one that it gives to a temporary file.
pub json_temporary : (c i d j : Text) → json_path c i ≢ temporary_path d j
unfolding last
json_temporary c i d j h =
    let e : last 0 (i ++ codes ".json") ≡ last 0 (j ++ codes ".tmp") = ap (λ p. last 0 p.1) h in
    let l = last-append 0 0 i (codes "json") 46 in
    let r = last-append 0 0 j (codes "tmp") 46 in apart (sym l ∙ e ∙ r)

pub suffix_cancel : (s t : Text) → s ++ codes ".json" ≡ t ++ codes ".json" → s ≡ t
suffix_cancel s t h = append_cancel_right s t (codes ".json") h

module _ (k : Text × Text) where
  pub get-without :
      (p : Text × Text) (files : Files)
      → get k (without p files) ≡ (if same p k then none else get k files)
  get-without p [] = elim (Bool-cases (same p k)) [ inl e ↦ rw e refl | inr e ↦ rw e refl ]
  get-without p ((q, f) ∷ files) =
      ground (arith, same_iff p k, same_iff q p, same_iff q k, get-without p files)

  pub get-replace :
      (from to : Text × Text) (f : File) (files : Files)
      → get from files ≡ some f
      → get k (replace from to files)
        ≡ (if same to k then some f else if same from k then none else get k files)
  get-replace from to f files h =
      subst
        (λ o.
          get k (moved o from to files)
          ≡ (if same to k then some f else if same from k then none else get k files))
        (sym h) (rw (get-put to k f (without from files), get-without from files) refl)

filled : (c : ℕ) (t : Text) → c ∷ t ≢ []
filled c t h = cc

differs : {b : Bool} → b ≡ false → b ≡ true → ⊥
differs h k = cc

refused :
    {x : Answer Text} (a b : Bool) (y : Answer Text) → b ≡ false → (if a || not b then x else y) ≡ x
refused true b y h = refl
refused false b y h = rw h refl

module _ (is_alnum : ℕ → Bool) where
  -- A segment that is accepted: not empty, of letters, digits, "-" and "_" only.
  abbrev pub IsSafe : Text → Type 0
  IsSafe t = (t ≢ []) × All (λ c. safe_character is_alnum c ≡ true) t

  length-keep : (t : Text) → length (keep (safe_character is_alnum) t) ≤ length t
  length-keep [] = omega arith
  length-keep (c ∷ t) =
      if_ind (λ u. length u ≤ suc (length t)) (safe_character is_alnum c) _ _
        (λ _. omega (arith, length-keep t)) (λ _. omega (arith, length-keep t))

  keep_whole :
      (t : Text)
      → All (λ c. safe_character is_alnum c ≡ true) t
      → keep (safe_character is_alnum) t ≡ t
  keep_whole [] a = refl
  keep_whole (c ∷ t) (h, a) = rw (h, keep_whole t a) refl

  too_long : {m n : ℕ} → m ≡ suc n → m ≤ n → ⊥
  too_long e l = omega arith

  module _ (c : ℕ) (t : Text)
      (later : keep (safe_character is_alnum) t ≡ t
        → All (λ d. safe_character is_alnum d ≡ true) t) where
    whole_cons :
        (b : Bool)
        → safe_character is_alnum c ≡ b
        → (if b then c ∷ keep (safe_character is_alnum) t else keep (safe_character is_alnum) t)
          ≡ c ∷ t
        → All (λ d. safe_character is_alnum d ≡ true) (c ∷ t)
    whole_cons true e h = (e, later (ap (drop 1) h))
    whole_cons false e h =
        let l : length (keep (safe_character is_alnum) t) ≡ suc (length t) = ap length h in
        elim (too_long l (length-keep t)) [ ]

  whole_keep :
      (t : Text)
      → keep (safe_character is_alnum) t ≡ t
      → All (λ c. safe_character is_alnum c ≡ true) t
  whole_keep [] h = tt
  whole_keep (c ∷ t) h = whole_cons c t (whole_keep t) (safe_character is_alnum c) refl h

  accepted :
      (t label : Text)
      → keep (safe_character is_alnum) t ≡ t
      → All (λ c. safe_character is_alnum c ≡ true) t
      → ((safe_segment is_alnum t label ≡ returned t) × IsSafe t)
        ⊎ ((safe_segment is_alnum t label ≡ raised (unsafe label)) × (IsSafe t → ⊥))
  unfolding safe_segment
  accepted [] label e a = inr (refl, λ (p, b). p refl)
  accepted (c ∷ t) label e a = inl (rw (e, (same_iff (c ∷ t) (c ∷ t)).1 refl) refl, (filled c t, a))

  -- A segment is accepted as it is, or refused by its label.
  pub safe_segment-cases :
      (t label : Text)
      → ((safe_segment is_alnum t label ≡ returned t) × IsSafe t)
        ⊎ ((safe_segment is_alnum t label ≡ raised (unsafe label)) × (IsSafe t → ⊥))
  unfolding safe_segment
  safe_segment-cases t label = elim (Bool-cases (same (keep (safe_character is_alnum) t) t)) [
    | inl e ↦
        let whole = (same_iff (keep (safe_character is_alnum) t) t).0 e in
        accepted t label whole (whole_keep t whole)
    | inr e ↦ inr (
      refused (is_empty (keep (safe_character is_alnum) t)) _ _ e,
      λ (p, a). differs e ((same_iff (keep (safe_character is_alnum) t) t).1 (keep_whole t a)),
    )
  ]
