-- ===== src/Types/NodeId/Parsed.antt =====
-- The node ids that pytest prints, parsed.
use conflict_graph.Prelude.{
  ℕ, ◌≡◌, refl, ap, Bool, true, false, ◌||◌, Option, none, some, List, [], ◌∷◌, ◌++◌, append_assoc,
  append-nil, ◌==◌, All, ◌∙◌,
}
use conflict_graph.Prelude.Text.{Text, codes, ends_with}
use conflict_graph.Prelude.Strings.{cut}
use conflict_graph.Types.NodeId.{
  split_double, class_of, but_last, parameters_of, first_part, later_parts, function_of, raw_of,
  from_pytest_nodeid,
}

-- Neither a colon nor an opening bracket.
abbrev pub IsName : Text → Type 0
IsName text = All (λ c. ((c == 58) ≡ false) × ((c == 91) ≡ false)) text

abbrev pub HasNoColon : Text → Type 0
HasNoColon text = All (λ c. (c == 58) ≡ false) text

abbrev pub class_text : Option Text → Text
class_text none = []
class_text (some class) = class ++ codes "::"

abbrev pub parameters_text : Option Text → Text
parameters_text none = []
parameters_text (some parameters) = codes "[" ++ parameters ++ codes "]"

-- What pytest prints for a test; 58 is the colon.
abbrev pub node_id_of : Text → Option Text → Text → Option Text → Text
node_id_of file class function parameters =
    file ++ 58 ∷ 58 ∷ (class_text class ++ (function ++ parameters_text parameters))

abbrev pub or_empty : Option Text → Text
or_empty none = []
or_empty (some text) = text

split_double-part :
    (part rest : Text)
    → HasNoColon part
    → split_double (part ++ 58 ∷ 58 ∷ rest) ≡ part ∷ split_double rest
split_double-part [] rest n = refl
split_double-part (c ∷ []) rest n = rw n.0 refl
split_double-part (c ∷ d ∷ part) rest n = rw (n.0, split_double-part (d ∷ part) rest n.1) refl

split_double_whole : (part : Text) → HasNoColon part → split_double part ≡ part ∷ []
split_double_whole [] n = refl
split_double_whole (c ∷ []) n = refl
split_double_whole (c ∷ d ∷ part) n = rw (n.0, split_double_whole (d ∷ part) n.1) refl

cut-name : (name rest : Text) → IsName name → cut 91 (name ++ 91 ∷ rest) ≡ some (name, rest)
cut-name [] rest n = refl
cut-name (c ∷ name) rest n = rw (n.0.1, cut-name name rest n.1) refl

cut-name_none : (name : Text) → IsName name → cut 91 name ≡ none
cut-name_none [] n = refl
cut-name_none (c ∷ name) n = rw (n.0.1, cut-name_none name n.1) refl

but_last-append : (text : Text) (c : ℕ) → but_last (text ++ c ∷ []) ≡ text
but_last-append [] c = refl
but_last-append (d ∷ []) c = refl
but_last-append (d ∷ e ∷ text) c = ap (λ t. d ∷ t) (but_last-append (e ∷ text) c)

or_true : (b : Bool) → (b || true) ≡ true
or_true true = refl
or_true false = refl

ends_with-bracket : (text : Text) → ends_with (codes "]") (text ++ codes "]") ≡ true
ends_with-bracket [] = refl
ends_with-bracket (c ∷ text) = rw (ends_with-bracket text) (or_true _)

parameters_of-bracket : (text : Text) → parameters_of (text ++ codes "]") ≡ text
parameters_of-bracket text = rw (ends_with-bracket text) (but_last-append text 93)

abbrev class_parts : Option Text → Text → List Text
class_parts none raw = raw ∷ []
class_parts (some class) raw = class ∷ raw ∷ []

-- What holds of the text of an Optional.
abbrev pub Of : (Text → Type 0) → Option Text → Type 0
Of P none = Unit
Of P (some text) = P text

name-HasNoColon : (name : Text) → IsName name → HasNoColon name
name-HasNoColon [] n = tt
name-HasNoColon (c ∷ name) n = (n.0.0, name-HasNoColon name n.1)

append-HasNoColon : (s t : Text) → HasNoColon s → HasNoColon t → HasNoColon (s ++ t)
append-HasNoColon [] t a b = b
append-HasNoColon (c ∷ s) t a b = (a.0, append-HasNoColon s t a.1 b)

raw-HasNoColon :
    (function : Text) (parameters : Option Text)
    → IsName function
    → Of HasNoColon parameters
    → HasNoColon (function ++ parameters_text parameters)
raw-HasNoColon function none n p = append-HasNoColon function [] (name-HasNoColon function n) tt
raw-HasNoColon function (some parameters) n p =
    append-HasNoColon function (91 ∷ parameters ++ codes "]") (name-HasNoColon function n)
      (refl, append-HasNoColon parameters (codes "]") p (refl, tt))

split_double-node_id :
    (file : Text) (class : Option Text) (raw : Text)
    → HasNoColon file
    → Of HasNoColon class
    → HasNoColon raw
    → split_double (file ++ 58 ∷ 58 ∷ (class_text class ++ raw)) ≡ file ∷ class_parts class raw
split_double-node_id file none raw f c r =
    split_double-part file raw f ∙ ap (λ l. file ∷ l) (split_double_whole raw r)
split_double-node_id file (some class) raw f c r =
    split_double-part file ((class ++ codes "::") ++ raw) f
    ∙ ap (λ t. file ∷ split_double t) (append_assoc class (codes "::") raw)
    ∙ ap (λ l. file ∷ l) (split_double-part class raw c)
    ∙ ap (λ l. file ∷ class ∷ l) (split_double_whole raw r)

function_of-raw :
    (function : Text) (parameters : Option Text)
    → IsName function
    → (function_of (function ++ parameters_text parameters)).0 ≡ function
function_of-raw function none n = rw (append-nil, cut-name_none function n) refl
function_of-raw function (some parameters) n =
    rw (cut-name function (parameters ++ codes "]") n) refl

parameters_of-raw :
    (function : Text) (parameters : Option Text)
    → IsName function
    → parameters_of (function_of (function ++ parameters_text parameters)).1 ≡ or_empty parameters
parameters_of-raw function none n = rw (append-nil, cut-name_none function n) refl
parameters_of-raw function (some parameters) n =
    rw (cut-name function (parameters ++ codes "]") n) (parameters_of-bracket parameters)

class_of-parts :
    (class : Option Text) (raw : Text) → class_of (class_parts class raw) ≡ or_empty class
class_of-parts none raw = refl
class_of-parts (some class) raw = refl

raw_of-parts : (file raw : Text) (class : Option Text) → raw_of (file ∷ class_parts class raw) ≡ raw
raw_of-parts file raw none = refl
raw_of-parts file raw (some class) = refl

-- A node id of a file, a class or none, a function, and parameters in brackets or none is parsed to
-- these, when none of them has a colon and the function has no opening bracket.
pub from_pytest_nodeid-node_id_of :
    (digest : Text → Text) (repository revision file function : Text)
    (class parameters : Option Text)
    → HasNoColon file
    → Of HasNoColon class
    → IsName function
    → Of HasNoColon parameters
    → let t =
        from_pytest_nodeid digest (node_id_of file class function parameters) repository revision in
      (t.test_file ≡ file)
      × (t.test_class ≡ or_empty class)
      × (t.test_function ≡ function)
      × (t.parameters ≡ or_empty parameters)
unfolding from_pytest_nodeid
from_pytest_nodeid-node_id_of digest repository revision file function class parameters f c n p =
    let e =
      split_double-node_id file class (function ++ parameters_text parameters) f c
        (raw-HasNoColon function parameters n p) in
    (
      ap first_part e,
      ap (λ l. class_of (later_parts l)) e ∙ class_of-parts class _,
      ap (λ l. (function_of (raw_of l)).0) e
          ∙ (ap (λ r. (function_of r).0) (raw_of-parts file _ class)
              ∙ function_of-raw function parameters n),
      ap (λ l. parameters_of (function_of (raw_of l)).1) e
          ∙ (ap (λ r. parameters_of (function_of r).1) (raw_of-parts file _ class)
              ∙ parameters_of-raw function parameters n),
    )
