-- ===== src/Blueprint/Loading.antt =====
-- LoadAllBlueprints of protocube/blueprint/parser.go loads no id twice.
use sls.Shared.{
  ◌≡◌, ◌≢◌, inl, inr, false, not, ◌||◌, List, [], ◌∷◌, map, All, All-mono, Distinct, arith,
  Bool-cases,
}
use sls.Shared.Equality.{nat_eq, list_eq, list_beq_iff}
use sls.Shared.Text.{Text}
use sls.Shared.Outcome.{ok, err}
use sls.Blueprint.{
  Blueprint, Visit, inaccessible, directory, file, lower, is_yaml, extension, is_seen, load_visits,
}

abbrev pub ids : List Blueprint → List Text
ids [] = []
ids (b ∷ bs) = b.meta.id ∷ ids bs

abbrev IsFresh : List Text → Text → Type 0
IsFresh seen id = is_seen seen id ≡ false

-- An id that is fresh behind one more differs from that one.
apart : (seen : List Text) (x id : Text) → IsFresh (x ∷ seen) id → x ≢ id
apart seen x id h e = ground (arith, h, list_beq_iff x id, e)

load_visits-IsFresh :
    (seen : List Text) (vs : List Visit)
    → All (IsFresh seen) (ids (load_visits seen vs)) × Distinct (ids (load_visits seen vs))
unfolding load_visits
load_visits-IsFresh seen [] = (tt, tt)
load_visits-IsFresh seen (inaccessible ∷ vs) = load_visits-IsFresh seen vs
load_visits-IsFresh seen (directory ∷ vs) = load_visits-IsFresh seen vs
load_visits-IsFresh seen (file name (err e) ∷ vs) = load_visits-IsFresh seen vs
load_visits-IsFresh seen (file name (ok bp) ∷ vs) =
    elim (Bool-cases (not (is_yaml (map lower (extension name))) || is_seen seen bp.meta.id)) [
      | inl skipped ↦ rw (skipped, load_visits) (load_visits-IsFresh seen vs)
      | inr loaded ↦
          let (fresh, once) = load_visits-IsFresh (bp.meta.id ∷ seen) vs in
          rw (loaded, load_visits)
            (
              (
                ground (arith, loaded),
                All-mono (ids (load_visits (bp.meta.id ∷ seen) vs)) (λ id h. ground (arith, h))
                    fresh,
              ),
              (
                All-mono (ids (load_visits (bp.meta.id ∷ seen) vs))
                    (λ id h. apart seen bp.meta.id id h) fresh,
                once,
              ),
            )
    ]

-- Whatever files the walk meets, no two of the blueprints that are loaded have one id.
pub load_visits-Distinct : (vs : List Visit) → Distinct (ids (load_visits [] vs))
load_visits-Distinct vs = (load_visits-IsFresh [] vs).1
