-- ===== src/OutputMatcher/Wire.antt =====
-- What is left of a matcher of protocube/models/process.go once it has been sent to a node.
use sls.Shared.{
  ◌≡◌, refl, ◌∙◌, ap, inl, inr, Bool, true, false, Option, none, some, [], ◌∷◌, if◌then◌else◌,
  Bool-cases,
}
use sls.Shared.Text.{Text}
use sls.Shared.Text.Affixes.{has_prefix, trim_prefix, strip}
use sls.OutputMatcher.{
  regex_prefix, contains, OutputLineMatcher, matches, new_output_line_matcher, marshal, unmarshal,
}

contains-nil : (s : Text) → contains s [] ≡ true
unfolding contains has_prefix strip
contains-nil [] = refl
contains-nil (c ∷ s) = refl

no_prefix : has_prefix regex_prefix [] ≡ false
unfolding has_prefix strip
no_prefix = refl

module _ {R : Type 0} (compile : Text → Option R) (match : R → Text → Bool) where
  sent_text :
      (t line : Text)
      → has_prefix regex_prefix t ≡ false
      → matches compile match (unmarshal compile match t) line ≡ contains line t
  unfolding unmarshal matches
  sent_text t line plain = rw plain refl

  -- Once a matcher has been sent to a node, it matches the lines that contain the signal, if that is a
  -- plain text; if it is a regular expression, it matches every line, whatever the expression.
  pub matches-unmarshal :
      (done line : Text) (m : OutputLineMatcher compile match)
      → new_output_line_matcher compile match done ≡ some m
      → matches compile match (unmarshal compile match (marshal compile match m)) line
        ≡ (if has_prefix regex_prefix done then true else contains line done)
  unfolding new_output_line_matcher marshal
  matches-unmarshal done line m h = elim (Bool-cases (has_prefix regex_prefix done)) [
    | inl regex ↦
        rw (regex, if◌then◌else◌)
          (ap (λ t. matches compile match (unmarshal compile match t) line)
              (no_raw (compile (trim_prefix regex_prefix done))
                (rw (regex, new_output_line_matcher, if◌then◌else◌) at h))
            ∙ sent_text [] line no_prefix
            ∙ contains-nil line)
    | inr plain ↦
        rw (plain, if◌then◌else◌)
          (ap (λ t. matches compile match (unmarshal compile match t) line)
              (raw_of (rw (plain, new_output_line_matcher, if◌then◌else◌) at h))
            ∙ sent_text done line plain)
  ]
    where
      no_raw :
          (o : Option R)
          → (elim o [ none ↦ none | some r ↦ some (record { raw = []; reg = some r }) ]) ≡ some m
          → m.raw ≡ []
      no_raw none h = cc
      no_raw (some r) h = cc

      raw_of : some (record { raw = done; reg = none }) ≡ some m → m.raw ≡ done
      raw_of h = cc
