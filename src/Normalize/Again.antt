-- ===== src/Normalize/Again.antt =====
-- What the Redis and process normalizers make of their own answers, and of a NUL.
use mathlib.Core.Option.{some_inj}
use conflict_graph.Prelude.{
  ℕ, ◌≡◌, ◌≢◌, refl, sym, ap, subst, Bool, false, Option, none, some, [], ◌∷◌, ◌++◌, append_assoc,
  if◌then◌else◌, Bool-cases, inl, inr, drop_while,
}
use conflict_graph.Prelude.Text.{Text, codes}
use conflict_graph.Prelude.Strings.{
  strip, drop_end, cut, cut-eq, cut_last, drop_end_twice, drop_end-append, drop_end-suffix,
  strip-cons, strip-head, strip_kept,
}
use conflict_graph.Normalize.Path.{Python}
use conflict_graph.Normalize.{
  index_error, is_digits, redis_of, redis_split, redis_stripped, process_stripped, process_named,
  redis, process, before_nul, word, base_name, named,
}

redis_text_split :
    (db key : Text)
    → ◌≡◌ {A = Text}
        ((codes "REDIS:" ++ db ++ codes ":") ++ key)
        (codes "REDIS:" ++ db ++ codes ":" ++ key)
redis_text_split db key = rw append_assoc refl

named_returns : (executable : Text) → named executable ≢ index_error
named_returns [] h = cc
named_returns (c ∷ executable) h = cc

filled : (c : ℕ) (t : Text) → c ∷ t ≢ []
filled c t h = cc

module _ (py : Python) where
  abbrev chosen : Bool → Text → Text → Text → Option Text
  chosen b db key value = if b then redis_of db key else redis_of (codes "0") value

  abbrev redis_text : Text → Text → Text
  redis_text db key = codes "REDIS:" ++ db ++ codes ":" ++ key

  -- A key that is not empty, at the end of the value.
  abbrev Shape : Text → Text → Type 0
  Shape value v =
      (db : Text) × (key : Text) × (front : Text) × (v ≡ redis_text db key)
      × (key ≢ [])
      × (value ≡ front ++ key)

  redis_of-Shape :
      (value db key front v : Text)
      → value ≡ front ++ key
      → redis_of db key ≡ some v
      → Shape value v
  redis_of-Shape value db [] front v e h = cc
  redis_of-Shape value db (c ∷ key) front v e h =
      (db, c ∷ key, front, sym (some_inj.0 h), filled c key, e)

  redis_split-Shape :
      (value v : Text) (o : Option (Text × Text))
      → cut 58 value ≡ o
      → redis_split py value o ≡ some v
      → Shape value v
  redis_split-Shape value v none e h = redis_of-Shape value (codes "0") value [] v refl h
  redis_split-Shape value v (some (db, key)) e h = elim (Bool-cases (is_digits py db)) [
    | inl d ↦
        redis_of-Shape value db key (db ++ 58 ∷ []) v (rw append_assoc (cut-eq 58 value db key e))
          (subst (λ b. chosen b db key value ≡ some v) d h)
    | inr d ↦
        redis_of-Shape value (codes "0") value [] v refl
          (subst (λ b. chosen b db key value ≡ some v) d h)
  ]

  redis_stripped-Shape : (value v : Text) → redis_stripped py value ≡ some v → Shape value v
  redis_stripped-Shape [] v h = cc
  redis_stripped-Shape (c ∷ value) v h = redis_split-Shape (c ∷ value) v (cut 58 (c ∷ value)) refl h

  redis_text-strip :
      (db key : Text)
      → py.is_space 82 ≡ false
      → key ≢ []
      → drop_end py.is_space key ≡ key
      → strip py.is_space (redis_text db key) ≡ redis_text db key
  redis_text-strip db [] space ne end = elim (ne refl) [ ]
  redis_text-strip db (c ∷ key) space ne end =
      strip_kept py.is_space 82 (codes "EDIS:" ++ db ++ codes ":" ++ c ∷ key) space (
        subst (λ t. drop_end py.is_space t ≡ t) (redis_text_split db (c ∷ key))
          (drop_end-append py.is_space (codes "REDIS:" ++ db ++ codes ":") c key end))

  redis_stripped_again :
      (db key : Text)
      → py.is_digit 82 ≡ false
      → redis_stripped py (redis_text db key) ≡ some (codes "REDIS:0:" ++ redis_text db key)
  redis_stripped_again db key digit = rw digit refl

  -- With "R" neither a space nor a digit: a key that is normalized gets another prefix when it is
  -- normalized again.
  pub redis_again :
      (raw v : Text)
      → py.is_space 82 ≡ false
      → py.is_digit 82 ≡ false
      → redis py raw ≡ some v
      → redis py v ≡ some (codes "REDIS:0:" ++ v)
  unfolding redis
  redis_again raw v space digit h =
      let (db, key, front, e, ne, f) = redis_stripped-Shape (strip py.is_space raw) v h in
      let whole : drop_end py.is_space (front ++ key) ≡ front ++ key =
        subst (λ t. drop_end py.is_space t ≡ t) f
          (drop_end_twice py.is_space (drop_while py.is_space raw)) in
      let end : drop_end py.is_space key ≡ key = drop_end-suffix py.is_space front key whole in
      rw (e, redis_text-strip db key space ne end) (redis_stripped_again db key digit)

  nul_first : (rest : Text) → py.is_space 0 ≡ false → process py (0 ∷ rest) ≡ index_error
  unfolding process
  nul_first rest space = ap (process_stripped py) (strip-cons py.is_space 0 rest space)

  without_nul : (raw : Text) → cut 0 (strip py.is_space raw) ≡ none → process py raw ≢ index_error
  unfolding process
  without_nul raw h = go (strip py.is_space raw) refl h
    where
      go :
          (value : Text)
          → strip py.is_space raw ≡ value
          → cut 0 value ≡ none
          → process_stripped py value ≢ index_error
      go [] e k q = cc
      go (c ∷ value) e k q =
          named_returns (base_name (word py (c ∷ value)) (cut_last 47 (word py (c ∷ value)))) (
            subst
              (λ b.
                process_named py (if b then drop_while py.is_space value else c ∷ value)
                ≡ index_error)
              (strip-head py.is_space raw c value e)
              (subst
                (λ o.
                  process_named py (drop_while py.is_space (before_nul (c ∷ value) o))
                  ≡ index_error)
                k q))

  -- With NUL no space: an identifier of a process that begins with NUL raises an IndexError, and one
  -- that has no NUL, once stripped, never does.
  pub process_raises :
      (rest raw : Text)
      → py.is_space 0 ≡ false
      → cut 0 (strip py.is_space raw) ≡ none
      → (process py (0 ∷ rest) ≡ index_error) × (process py raw ≢ index_error)
  process_raises rest raw space h = (nul_first rest space, without_nul raw h)
