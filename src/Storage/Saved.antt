-- ===== src/Storage/Saved.antt =====
-- What `save` leaves for `load`: the round trip, the refusals, and a save that was cut short.
use conflict_graph.Prelude.{
  ℕ, ◌≡◌, ◌≢◌, ◌↔◌, refl, sym, subst, Bool, true, Option, none, some, ◌++◌, nat_eq, pair_eq,
  Option-cases, inl, inr,
}
use conflict_graph.Prelude.Text.{Text, text_eq, codes}
use conflict_graph.Prelude.Dict.{get}
use conflict_graph.Storage.{
  Files, Answer, raised, returned, Failure, unserializable, json_path, safe_segment,
  write_temporary, save, load, found,
}
use conflict_graph.Storage.Names.{IsSafe, safe_segment-cases}
use conflict_graph.Storage.Stored.{stored, get-stored, get_temporary_ne, get-stored_ne}

module _ (is_alnum : ℕ → Bool) {V : Type 0} (dumps : V → Option Text) where
  refused_category :
      (now : ℕ) (c i : Text) (v : V) (files : Files) {f : Failure}
      → safe_segment is_alnum c (codes "category") ≡ raised f
      → save is_alnum dumps now c i v files ≡ raised f
  unfolding save
  refused_category now c i v files e = rw e refl

  refused_identifier :
      (now : ℕ) (c i : Text) (v : V) (files : Files) {f : Failure}
      → safe_segment is_alnum c (codes "category") ≡ returned c
      → safe_segment is_alnum i (codes "identifier") ≡ raised f
      → save is_alnum dumps now c i v files ≡ raised f
  unfolding save
  refused_identifier now c i v files e k = rw (e, k) refl

  refused_value :
      (now : ℕ) (c i : Text) (v : V) (files : Files)
      → safe_segment is_alnum c (codes "category") ≡ returned c
      → safe_segment is_alnum i (codes "identifier") ≡ returned i
      → dumps v ≡ none
      → save is_alnum dumps now c i v files ≡ raised unserializable
  unfolding save
  refused_value now c i v files e k n = rw (e, k, n) refl

  save-stored :
      (now : ℕ) (c i : Text) (v : V) (files : Files) {text : Text}
      → safe_segment is_alnum c (codes "category") ≡ returned c
      → safe_segment is_alnum i (codes "identifier") ≡ returned i
      → dumps v ≡ some text
      → save is_alnum dumps now c i v files ≡ returned (stored now c i text files)
  unfolding save
  save-stored now c i v files e k t = rw (e, k, t) refl

  clash {ℓ} :
      {A : Type 0} {B : Type ℓ} {a : Answer A} {f : Failure} {x : A}
      → a ≡ raised f
      → a ≡ returned x
      → B
  clash h k = cc

  returned_inj : {A : Type 0} {a : Answer A} {x y : A} → a ≡ returned x → a ≡ returned y → x ≡ y
  returned_inj h k = cc

  -- What a save that answers with files shows of its arguments.
  abbrev Shown : ℕ → Text → Text → V → Files → Files → Type 0
  Shown now c i v files after =
      (text : Text) × (dumps v ≡ some text)
      × (after ≡ stored now c i text files)
      × IsSafe is_alnum c
      × IsSafe is_alnum i

  save-returned :
      (now : ℕ) (c i : Text) (v : V) (files after : Files)
      → save is_alnum dumps now c i v files ≡ returned after
      → Shown now c i v files after
  save-returned now c i v files after h = elim (safe_segment-cases is_alnum c (codes "category")) [
    | inl (e, p) ↦ elim (safe_segment-cases is_alnum i (codes "identifier")) [
      | inl (f, q) ↦ elim (Option-cases (dumps v)) [
        | inl n ↦ clash (refused_value now c i v files e f n) h
        | inr (text, t) ↦ (text, t, returned_inj h (save-stored now c i v files e f t), p, q)
      ]
      | inr (f, q) ↦ clash (refused_identifier now c i v files e f) h
    ]
    | inr (e, p) ↦ clash (refused_category now c i v files e) h
  ]

  accepted : (t label : Text) → IsSafe is_alnum t → safe_segment is_alnum t label ≡ returned t
  accepted t label s = elim (safe_segment-cases is_alnum t label) [
    | inl (e, p) ↦ e
    | inr (e, p) ↦ elim (p s) [ ]
  ]

  -- `save` writes a file exactly if the category and the identifier are not empty and have letters,
  -- digits, "-" and "_" only and the value can be printed; otherwise it raises an error.
  pub save-returned_iff :
      (now : ℕ) (c i : Text) (v : V) (files : Files)
      → ((after : Files) × (save is_alnum dumps now c i v files ≡ returned after))
        ↔ (IsSafe is_alnum c × IsSafe is_alnum i × ((text : Text) × (dumps v ≡ some text)))
  save-returned_iff now c i v files = (
    λ (after, h).
        let (text, t, e, p, q) = save-returned now c i v files after h in (p, q, (text, t)),
    λ (p, q, (text, t)). (
      stored now c i text files,
      save-stored now c i v files (accepted c _ p) (accepted i _ q) t,
    ),
  )

  module _ (loads : Text → Option V) (is_dict : V → Bool) where
    load-found :
        (d j : Text) (files : Files)
        → safe_segment is_alnum d (codes "category") ≡ returned d
        → safe_segment is_alnum j (codes "identifier") ≡ returned j
        → load is_alnum loads is_dict d j files ≡ found loads is_dict (get (json_path d j) files)
    unfolding load
    load-found d j files e k = rw (e, k) refl

    load_category :
        (d j : Text) (files : Files) {f : Failure}
        → safe_segment is_alnum d (codes "category") ≡ raised f
        → load is_alnum loads is_dict d j files ≡ raised f
    unfolding load
    load_category d j files e = rw e refl

    load_identifier :
        (d j : Text) (files : Files) {f : Failure}
        → safe_segment is_alnum d (codes "category") ≡ returned d
        → safe_segment is_alnum j (codes "identifier") ≡ raised f
        → load is_alnum loads is_dict d j files ≡ raised f
    unfolding load
    load_identifier d j files e k = rw (e, k) refl

    load_same :
        (d j : Text) (files after : Files)
        → get (json_path d j) after ≡ get (json_path d j) files
        → load is_alnum loads is_dict d j after ≡ load is_alnum loads is_dict d j files
    load_same d j files after h = elim (safe_segment-cases is_alnum d (codes "category")) [
      | inl (e, p) ↦ elim (safe_segment-cases is_alnum j (codes "identifier")) [
        | inl (k, q) ↦ rw (load-found d j after e k, load-found d j files e k, h) refl
        | inr (k, q) ↦ rw (load_identifier d j after e k, load_identifier d j files e k) refl
      ]
      | inr (e, p) ↦ rw (load_category d j after e, load_category d j files e) refl
    ]

    -- When a save succeeds and `json.loads` reads what was printed as the same object, loading the
    -- artifact gives that object, and any other artifact loads as before.
    pub load-save :
        (now : ℕ) (c i d j : Text) (v : V) (files after : Files)
        → save is_alnum dumps now c i v files ≡ returned after
        → ((text : Text) → dumps v ≡ some text → loads (text ++ codes "\n") ≡ some v)
        → is_dict v ≡ true
        → ◌≢◌ {A = Text × Text} (d, j) (c, i)
        → (load is_alnum loads is_dict c i after ≡ returned (some v))
          × (load is_alnum loads is_dict d j after ≡ load is_alnum loads is_dict d j files)
    load-save now c i d j v files after h reads object ne =
        let (text, t, e, p, q) = save-returned now c i v files after h in
        (
          rw
              (
                load-found c i after (accepted c _ p) (accepted i _ q),
                e,
                get-stored now c i text files,
                reads text t,
                object,
              )
              refl,
          load_same d j files after (
              subst (λ a. get (json_path d j) a ≡ get (json_path d j) files) (sym e)
                (get-stored_ne now c i d j text files ne)),
        )

    -- A save that was cut short before the move, whatever part of the text it had written to the
    -- temporary file, leaves every artifact to load as before.
    pub load-write_temporary :
        (now : ℕ) (c i d j text : Text) (files : Files)
        → load is_alnum loads is_dict d j (write_temporary now c i text files)
          ≡ load is_alnum loads is_dict d j files
    load-write_temporary now c i d j text files =
        load_same d j files (write_temporary now c i text files)
          (get_temporary_ne now c i d j text files)
