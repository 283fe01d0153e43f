-- ===== src/Storage.antt =====
-- `ArtifactStore` of python/conflictgraph/storage.py: the file names, `save`, `load` and `list`. The
-- directory is a dictionary of files by category and name; `json`, `str.isalnum` and the clock are
-- parameters.
pub mod Names
pub mod Stored
pub mod Saved
use conflict_graph.Prelude.{
  ℕ, Bool, true, false, not, ◌&&◌, ◌||◌, Option, none, some, List, [], ◌∷◌, ◌++◌, map, keep, any,
  is_empty, same, nat_eq, pair_eq, take, zero, suc, ltb, leb, sort_by, if◌then◌else◌,
}
use conflict_graph.Prelude.Int.{ℤ, pos, negsuc}
use conflict_graph.Prelude.Text.{Text, text_eq, codes, ends_with}
use conflict_graph.Prelude.Dict.{Dict, get, put}

-- A StorageError by its message; `unserializable` is the TypeError of `json.dumps`.
pub data Failure : Type 0 where
  unsafe : Text → Failure
  unserializable : Failure
  corrupt : Failure
  not_object : Failure

pub data Answer {ℓ} (A : Type ℓ) : Type ℓ where
  raised : Failure → Answer A
  returned : A → Answer A

infixl 5 ◌>>=◌
abbrev pub ◌>>=◌ {ℓ κ} : {A : Type ℓ} {B : Type κ} → Answer A → (A → Answer B) → Answer B
raised f >>= k = raised f
returned a >>= k = k a

pub record File : Type 0 where
  pub content : Text
  pub modified : ℕ

-- The files below the root: category, then name.
abbrev pub Files : Type 0
Files = Dict (Text × Text) File

-- os.replace and the removal of the old name
abbrev pub without : Text × Text → Files → Files
without p [] = []
without p ((q, f) ∷ files) = let rest = without p files in if same q p then rest else (q, f) ∷ rest

abbrev pub moved : Option File → Text × Text → Text × Text → Files → Files
moved none from to files = files
moved (some f) from to files = put to f (without from files)

abbrev pub replace : Text × Text → Text × Text → Files → Files
replace from to files = moved (get from files) from to files

abbrev pub json_path : Text → Text → Text × Text
json_path category identifier = (category, identifier ++ codes ".json")

-- path.with_suffix(".tmp")
abbrev pub temporary_path : Text → Text → Text × Text
temporary_path category identifier = (category, identifier ++ codes ".tmp")

-- The files once the temporary file is written, before it is moved.
unfoldable pub write_temporary : ℕ → Text → Text → Text → Files → Files
write_temporary now category identifier text files =
    put (temporary_path category identifier) (record { content = text; modified = now }) files

-- What `write_text` is given of what `json.dumps` answers.
abbrev pub printed : Option Text → Answer Text
printed none = raised unserializable
printed (some text) = returned (text ++ codes "\n")

module _ {V : Type 0} (loads : Text → Option V) (is_dict : V → Bool) where
  -- an object, of what `json.loads` answers
  abbrev pub object : Option V → Answer V
  object none = raised corrupt
  object (some value) = if is_dict value then returned value else raised not_object

  abbrev pub found : Option File → Answer (Option V)
  found none = returned none
  found (some file) = object (loads file.content) >>= λ value. returned (some value)

  unfoldable pub read_all : List File → Answer (List V)
  read_all [] = returned []
  read_all (file ∷ files) = do
    value ← object (loads file.content)
    values ← read_all files
    returned (value ∷ values)

-- The files that match *.json in a category.
abbrev pub matching : Text → Files → List File
matching category [] = []
matching category (((c, name), file) ∷ files) =
    let rest = matching category files in
    if same c category && ends_with (codes ".json") name then file ∷ rest else rest

abbrev pub newer : File → File → Bool
newer f g = ltb g.modified f.modified

-- The slice that is read: none of them for a limit of 0 or less, at most 500.
abbrev pub slice : ℤ → ℕ
slice (negsuc n) = 0
slice (pos n) = if leb n 500 then n else 500

module _ (is_alnum : ℕ → Bool) where
  abbrev pub safe_character : ℕ → Bool
  safe_character c = is_alnum c || any (λ d. same c d) (codes "-_")

  unfoldable pub safe_segment : Text → Text → Answer Text
  safe_segment value label =
      let safe = keep safe_character value in
      if is_empty safe || not (same safe value) then raised (unsafe label) else returned safe

  unfoldable pub save :
      {V : Type 0} → (V → Option Text) → ℕ → Text → Text → V → Files → Answer Files
  unfolding safe_segment write_temporary
  save dumps now category identifier value files = do
    c ← safe_segment category (codes "category")
    i ← safe_segment identifier (codes "identifier")
    text ← printed (dumps value)
    returned (replace (temporary_path c i) (json_path c i) (write_temporary now c i text files))

  unfoldable pub load :
      {V : Type 0} → (Text → Option V) → (V → Bool) → Text → Text → Files → Answer (Option V)
  unfolding safe_segment
  load loads is_dict category identifier files = do
    c ← safe_segment category (codes "category")
    i ← safe_segment identifier (codes "identifier")
    found loads is_dict (get (json_path c i) files)

  -- `list`; a directory that does not exist has no file that matches.
  unfoldable pub list_artifacts :
      {V : Type 0} → (Text → Option V) → (V → Bool) → Text → ℤ → Files → Answer (List V)
  unfolding safe_segment read_all
  list_artifacts loads is_dict category limit files = do
    c ← safe_segment category (codes "category")
    read_all loads is_dict (take (slice limit) (sort_by newer (matching c files)))
