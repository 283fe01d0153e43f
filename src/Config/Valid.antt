-- ===== src/Config/Valid.antt =====
-- What a configuration that `validate` lets pass is.
use conflict_graph.Prelude.{
  ℕ, ◌≡◌, refl, ◌≤◌, ◌↔◌, ◌⊎◌, inl, inr, Bool, true, false, not, ◌&&◌, List, [], ◌∷◌, is_empty,
  same, same_iff, arith, ◌≢◌,
}
use conflict_graph.Prelude.Int.{ℤ, pos, negsuc, leb_ℤ}
use conflict_graph.Prelude.Text.{Text, text_eq, codes}
use conflict_graph.Prelude.Float.{Float, nought, unit, ◌≼◌}
use conflict_graph.Config.{Config, Problem, unless, known_mode, validate}

module _ (problem : Problem) (problems : List Problem) where
  unless_nil : (ok : Bool) → unless ok problem problems ≡ [] → (ok ≡ true) × (problems ≡ [])
  unless_nil true h = (refl, h)
  unless_nil false h = cc

  nil-unless : (ok : Bool) → ok ≡ true → problems ≡ [] → unless ok problem problems ≡ []
  nil-unless ok h k = rw h k

-- A whole number from `low` to `high`.
abbrev pub Within : ℕ → ℕ → ℤ → Type 0
Within low high z = (n : ℕ) × (z ≡ pos n) × (low ≤ n) × (n ≤ high)

filled : (t : Text) → not (is_empty t) ≡ true → t ≢ []
filled [] h = cc
filled (x ∷ t) h = cc

not-is_empty : (t : Text) → t ≢ [] → not (is_empty t) ≡ true
not-is_empty [] h = elim (h refl) [ ]
not-is_empty (x ∷ t) h = refl

one : (z : ℤ) → (leb_ℤ z (pos 1) && leb_ℤ (pos 1) z) ≡ true → z ≡ pos 1
one z h = ground arith

within : (z : ℤ) → (leb_ℤ (pos 1) z && leb_ℤ z (pos 1024)) ≡ true → Within 1 1024 z
within (pos n) h = (n, refl, ground arith, ground arith)
within (negsuc n) h = ground arith

natural : (z : ℤ) → leb_ℤ (pos 0) z ≡ true → (n : ℕ) × (z ≡ pos n)
natural (pos n) h = (n, refl)
natural (negsuc n) h = ground arith

modes :
    (mode : Text)
    → known_mode mode ≡ true
    → (mode ≡ codes "ebpf") ⊎ ((mode ≡ codes "replay") ⊎ (mode ≡ codes "disabled"))
modes mode h = ground (
  arith,
  same_iff mode (codes "ebpf"),
  same_iff mode (codes "replay"),
  same_iff mode (codes "disabled"),
)

known :
    (mode : Text)
    → (mode ≡ codes "ebpf") ⊎ ((mode ≡ codes "replay") ⊎ (mode ≡ codes "disabled"))
    → known_mode mode ≡ true
known mode (inl e) = rw e refl
known mode (inr (inl e)) = rw e refl
known mode (inr (inr e)) = rw e refl

salted :
    (redact : Bool) (salt : Text)
    → (redact ≡ true → salt ≢ [])
    → not (redact && is_empty salt) ≡ true
salted false salt h = refl
salted true salt h = not-is_empty salt (h refl)

on_platform :
    (mode : Text) (on_linux : Bool)
    → not (same mode (codes "ebpf") && not on_linux) ≡ true
    → mode ≡ codes "ebpf"
    → on_linux ≡ true
on_platform mode on_linux h e = ground (arith, same_iff mode (codes "ebpf"))

with_salt :
    (redact missing : Bool) → not (redact && missing) ≡ true → redact ≡ true → not missing ≡ true
with_salt true missing h e = h
with_salt false missing h e = cc

parts : {a b : Bool} → (a && b) ≡ true → (a ≡ true) × (b ≡ true)
parts {a = true} h = (refl, h)
parts {a = false} h = cc

at_least : {a : Bool} → not (not a) ≡ true → a ≡ true
at_least {a = true} h = refl
at_least {a = false} h = cc

both : {a b : Bool} → (a ≡ true) × (b ≡ true) → (a && b) ≡ true
both {a} {b} (h, k) = rw (h, k) refl

module _ {F : Type 0} ⦃fl : Float F⦄ where
  -- What the fields are required to be.
  pub record IsValid (on_linux : Bool) (c : Config F) : Type 0 where
    pub version : c.version ≡ pos 1
    pub workers : Within 1 1024 c.workers
    pub mode :
        (c.tracing.mode ≡ codes "ebpf")
        ⊎ ((c.tracing.mode ≡ codes "replay") ⊎ (c.tracing.mode ≡ codes "disabled"))
    pub platform : c.tracing.mode ≡ codes "ebpf" → on_linux ≡ true
    pub salt : c.tracing.redact_paths ≡ true → c.tracing.hash_salt ≢ []
    pub quality : (nought ≼ c.tracing.minimum_quality) × (c.tracing.minimum_quality ≼ unit)
    pub weight : nought ≼ c.scheduler.risk_weight
    pub threshold : (nought ≼ c.scheduler.hard_threshold) × (c.scheduler.hard_threshold ≼ unit)
    pub rounds : (n : ℕ) × (c.scheduler.refinement_rounds ≡ pos n)
    pub risk : (nought ≼ c.model.default_no_edge_risk) × (c.model.default_no_edge_risk ≼ unit)
    pub artifact_dir : c.artifact_dir ≢ []
    pub artifact : c.model.artifact ≢ []
    pub database_url : c.database_url ≢ []
    pub api_address : c.api_address ≢ []

  -- `validate` raises no ConfigurationError exactly for the configurations whose every field is as
  -- required: the version is 1, there are 1 to 1024 workers, the tracing mode is known and "ebpf" on
  -- Linux only, redaction has a salt, the rates are in [0, 1], the weight and the rounds are not
  -- negative, and no name or address is empty.
  pub validate_iff :
      (on_linux : Bool) (c : Config F) → (validate on_linux c ≡ []) ↔ IsValid on_linux c
  unfolding validate
  validate_iff on_linux c = (
    λ h.
        let (h0, k0) = unless_nil _ _ _ h in
        let (h1, k1) = unless_nil _ _ _ k0 in
        let (h2, k2) = unless_nil _ _ _ k1 in
        let (h3, k3) = unless_nil _ _ _ k2 in
        let (h4, k4) = unless_nil _ _ _ k3 in
        let (h5, k5) = unless_nil _ _ _ k4 in
        let (h6, k6) = unless_nil _ _ _ k5 in
        let (h7, k7) = unless_nil _ _ _ k6 in
        let (h8, k8) = unless_nil _ _ _ k7 in
        let (h9, k9) = unless_nil _ _ _ k8 in
        let (h10, k10) = unless_nil _ _ _ k9 in
        let (h11, k11) = unless_nil _ _ _ k10 in
        let (h12, k12) = unless_nil _ _ _ k11 in
        let (h13, k13) = unless_nil _ _ _ k12 in
        record {
          version = one c.version h0;
          workers = within c.workers h1;
          mode = modes c.tracing.mode h2;
          platform = on_platform c.tracing.mode on_linux h3;
          salt = λ e. filled c.tracing.hash_salt (with_salt c.tracing.redact_paths _ h4 e);
          quality = parts h5;
          weight = at_least h6;
          threshold = parts h7;
          rounds = natural c.scheduler.refinement_rounds h8;
          risk = parts h9;
          artifact_dir = filled c.artifact_dir h10;
          artifact = filled c.model.artifact h11;
          database_url = filled c.database_url h12;
          api_address = filled c.api_address h13;
        },
    λ v.
        let (n, en, ln, un) = v.workers in
        let (m, em) = v.rounds in
        nil-unless _ _ _ (rw v.version refl) (
          nil-unless _ _ _ (rw en (ground arith)) (
            nil-unless _ _ _ (known c.tracing.mode v.mode) (
              nil-unless _ _ _ (ground (arith, v.platform, same_iff c.tracing.mode (codes "ebpf")))
                (nil-unless _ _ _ (salted c.tracing.redact_paths c.tracing.hash_salt v.salt) (
                  nil-unless _ _ _ (both v.quality) (
                    nil-unless _ _ _ (rw v.weight refl) (
                      nil-unless _ _ _ (both v.threshold) (
                        nil-unless _ _ _ (rw em (ground arith)) (
                          nil-unless _ _ _ (both v.risk) (
                            nil-unless _ _ _ (not-is_empty c.artifact_dir v.artifact_dir) (
                              nil-unless _ _ _ (not-is_empty c.model.artifact v.artifact) (
                                nil-unless _ _ _ (not-is_empty c.database_url v.database_url) (
                                  nil-unless _ _ _ (not-is_empty c.api_address v.api_address)
                                    refl))))))))))))),
  )
