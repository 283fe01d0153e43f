-- ===== src/Storage/Stored.antt =====
-- What a save makes of the files.
use conflict_graph.Prelude.{
  ℕ, ◌≡◌, ◌≢◌, refl, sym, false, some, ◌++◌, same, same_iff, nat_eq, pair_eq, inl, inr, Bool-cases,
  ap,
}
use conflict_graph.Prelude.Text.{Text, text_eq, codes}
use conflict_graph.Prelude.Dict.{get, get-put_ne, get-put_self}
use conflict_graph.Storage.{File, Files, json_path, temporary_path, replace, write_temporary}
use conflict_graph.Storage.Names.{json_temporary, suffix_cancel, get-replace}

not_same : (p q : Text × Text) → (p ≡ q → ⊥) → same p q ≡ false
not_same p q h = elim (Bool-cases (same p q)) [
  | inl e ↦ elim (h ((same_iff p q).0 e)) [ ]
  | inr e ↦ e
]

named : (c i d j : Text) → json_path c i ≡ json_path d j → ◌≡◌ {A = Text × Text} (d, j) (c, i)
named c i d j e =
    let q : c ≡ d = ap (λ p. p.0) e in
    let r : i ≡ j = suffix_cancel i j (ap (λ p. p.1) e) in rw (q, r) refl

abbrev pub file_of : ℕ → Text → File
file_of now text = record { content = text ++ codes "\n"; modified = now }

-- The files after a save that raises nothing.
abbrev pub stored : ℕ → Text → Text → Text → Files → Files
stored now c i text files =
    replace (temporary_path c i) (json_path c i)
      (write_temporary now c i (text ++ codes "\n") files)

get_temporary :
    (now : ℕ) (c i text : Text) (files : Files)
    → get (temporary_path c i) (write_temporary now c i (text ++ codes "\n") files)
      ≡ some (file_of now text)
unfolding write_temporary
get_temporary now c i text files = get-put_self (temporary_path c i) (file_of now text) files

pub get-stored :
    (now : ℕ) (c i text : Text) (files : Files)
    → get (json_path c i) (stored now c i text files) ≡ some (file_of now text)
get-stored now c i text files =
    rw
      (
        get-replace (json_path c i) (temporary_path c i) (json_path c i) (file_of now text)
            (write_temporary now c i (text ++ codes "\n") files) (get_temporary now c i text files),
        (same_iff (json_path c i) (json_path c i)).1 refl,
      )
      refl

pub get_temporary_ne :
    (now : ℕ) (c i d j text : Text) (files : Files)
    → get (json_path d j) (write_temporary now c i text files) ≡ get (json_path d j) files
unfolding write_temporary
get_temporary_ne now c i d j text files =
    get-put_ne (temporary_path c i) (json_path d j) (record { content = text; modified = now })
      files (λ e. json_temporary d j c i (sym e))

pub get-stored_ne :
    (now : ℕ) (c i d j text : Text) (files : Files)
    → ◌≢◌ {A = Text × Text} (d, j) (c, i)
    → get (json_path d j) (stored now c i text files) ≡ get (json_path d j) files
get-stored_ne now c i d j text files ne =
    rw
      (
        get-replace (json_path d j) (temporary_path c i) (json_path c i) (file_of now text)
            (write_temporary now c i (text ++ codes "\n") files) (get_temporary now c i text files),
        not_same (json_path c i) (json_path d j) (λ e. ne (named c i d j e)),
        not_same (temporary_path c i) (json_path d j) (λ e. json_temporary d j c i (sym e)),
      )
      (get_temporary_ne now c i d j (text ++ codes "\n") files)
