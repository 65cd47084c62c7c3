-- ===== src/Configuration/Layers.antt =====
-- The layers of configuration patches in protocube/server/config_parser.go: the last one decides.
use sls.Shared.{
  ◌≡◌, refl, sym, ◌∙◌, ap, ◌≢◌, inl, inr, Option, none, some, List, [], ◌∷◌, ◌++◌, All, All-mono,
  All-append, Distinct, arith, if◌then◌else◌, Bool-cases,
}
use sls.Shared.Equality.{nat_eq, list_eq, list_beq, list_beq_iff}
use sls.Shared.Table.{Table, lookup, insert, lookup-insert}
use sls.Shared.Text.{Text}
use sls.Blueprint.{Value, Fields, nil, field, ConfigFile}
use sls.Configuration.{
  MergedConfig, Merged, no_files, insert_fields, merge_file, add_file, add_layer, merged_layers,
}

-- The last value that is written under a key.
abbrev pub written : Text → Fields → Option Value → Option Value
written key nil before = before
written key (field k v fs) before = written key fs (if list_beq k key then some v else before)

-- The value that a layer leaves under a key of a file, over what was there before.
abbrev pub layer_value : Text → Text → Table Text ConfigFile → Option Value → Option Value
layer_value file key [] before = before
layer_value file key ((f, c) ∷ layer) before =
    layer_value file key layer (if list_beq f file then written key c.find before else before)

abbrev pub found_value : Text → Option MergedConfig → Option Value
found_value key none = none
found_value key (some c) = lookup key c.find

-- What the merged files say of a key of a file.
abbrev pub value_of : Text → Text → Merged → Option Value
value_of file key m = found_value key (lookup file m.files)

insert_fields-lookup :
    (key : Text) (fs : Fields) (m : Table Text Value)
    → lookup key (insert_fields fs m) ≡ written key fs (lookup key m)
unfolding insert_fields
insert_fields-lookup key nil m = refl
insert_fields-lookup key (field k v fs) m =
    insert_fields-lookup key fs (insert k v m) ∙ ap (written key fs) (lookup-insert k key v m)

-- The file with its merged keys, once one more file is merged.
value-insert :
    (file key f : Text) (x : MergedConfig) (fs : Fields) (files : Table Text MergedConfig)
    → lookup key x.find ≡ written key fs (found_value key (lookup f files))
    → found_value key (lookup file (insert f x files)) ≡ (
        if list_beq f file
        then written key fs (found_value key (lookup file files))
        else found_value key (lookup file files))
value-insert file key f x fs files h =
    ap (found_value key) (lookup-insert f file x files) ∙ elim (Bool-cases (list_beq f file)) [
      | inl same ↦
          let e = (list_beq_iff f file).0 same in
          rw same (h ∙ ap (λ g. written key fs (found_value key (lookup g files))) e)
      | inr other ↦ rw other refl
    ]

add_file-value :
    (file key f : Text) (c : ConfigFile) (m : Merged)
    → value_of file key (add_file f c m)
      ≡ (if list_beq f file then written key c.find (value_of file key m) else value_of file key m)
unfolding add_file
add_file-value file key f c m = by_entry (lookup f m.files) refl
  where
    by_entry :
        (o : Option MergedConfig)
        → lookup f m.files ≡ o
        → value_of file key (merge_file f c.parser c.find o m) ≡ (
            if list_beq f file
            then written key c.find (value_of file key m)
            else value_of file key m)
    by_entry none e =
        value-insert file key f (record { parser = c.parser; find = insert_fields c.find [] })
          c.find m.files
          (insert_fields-lookup key c.find []
            ∙ unfold lookup in ap (λ o. written key c.find (found_value key o)) (sym e))
    by_entry (some d) e =
        value-insert file key f (record { parser = c.parser; find = insert_fields c.find d.find })
          c.find m.files
          (insert_fields-lookup key c.find d.find
            ∙ ap (λ o. written key c.find (found_value key o)) (sym e))

add_layer-value :
    (file key : Text) (layer : Table Text ConfigFile) (m : Merged)
    → value_of file key (add_layer layer m) ≡ layer_value file key layer (value_of file key m)
unfolding add_layer
add_layer-value file key [] m = refl
add_layer-value file key ((f, c) ∷ layer) m =
    add_layer-value file key layer (add_file f c m)
    ∙ ap (layer_value file key layer) (add_file-value file key f c m)

-- Each file comes once in the order, and is one of the merged files.
pub record IsOrdered (m : Merged) : Type 0 where
  pub once : Distinct m.order
  pub there : All (λ f. lookup f m.files ≢ none) m.order

Distinct-snoc :
    (xs : List Text) (x : Text) → All (λ y. y ≢ x) xs → Distinct xs → Distinct (xs ++ x ∷ [])
Distinct-snoc [] x h d = (tt, tt)
Distinct-snoc (y ∷ xs) x (h, hs) (d, ds) =
    (All-append _ xs (x ∷ []) d (h, tt), Distinct-snoc xs x hs ds)

still_there :
    (f g : Text) (x : MergedConfig) (files : Table Text MergedConfig)
    → lookup g files ≢ none
    → lookup g (insert f x files) ≢ none
still_there f g x files h e = ground (arith, lookup-insert f g x files, h, e)

add_file-IsOrdered :
    (f : Text) (c : ConfigFile) (m : Merged) → IsOrdered m → IsOrdered (add_file f c m)
unfolding add_file
add_file-IsOrdered f c m v = by_entry (lookup f m.files) refl
  where
    differs : lookup f m.files ≡ none → (g : Text) → lookup g m.files ≢ none → g ≢ f
    differs e g h same = h (ap (λ k. lookup k m.files) same ∙ e)

    now_there : (x : MergedConfig) → lookup f (insert f x m.files) ≢ none
    now_there x e = ground (arith, lookup-insert f f x m.files, list_beq_iff f f, e)

    by_entry :
        (o : Option MergedConfig)
        → lookup f m.files ≡ o
        → IsOrdered (merge_file f c.parser c.find o m)
    by_entry none e = record {
      once = Distinct-snoc m.order f (All-mono m.order (differs e) v.there) v.once;
      there =
          All-append _ m.order (f ∷ [])
            (All-mono m.order (λ g h. still_there f g _ m.files h) v.there) (now_there _, tt);
    }
    by_entry (some d) e = record {
      once = v.once;
      there = All-mono m.order (λ g h. still_there f g _ m.files h) v.there;
    }

add_layer-IsOrdered :
    (layer : Table Text ConfigFile) (m : Merged) → IsOrdered m → IsOrdered (add_layer layer m)
unfolding add_layer
add_layer-IsOrdered [] m v = v
add_layer-IsOrdered ((f, c) ∷ layer) m v =
    add_layer-IsOrdered layer (add_file f c m) (add_file-IsOrdered f c m v)

-- For any layers, in any order of the ranges: under each key of each file, the merged patches have the
-- value that the overrides write last, or else the blueprint, or else the software; and each file
-- comes once.
pub merged_layers-value :
    (software blueprint overrides : Table Text ConfigFile) (file key : Text)
    → (value_of file key (merged_layers software blueprint overrides)
        ≡ layer_value file key overrides
            (layer_value file key blueprint (layer_value file key software none)))
      × IsOrdered (merged_layers software blueprint overrides)
merged_layers-value software blueprint overrides file key =
    let sw = add_layer software no_files in
    let bp = add_layer blueprint sw in
    (
      add_layer-value file key overrides bp
          ∙ ap (layer_value file key overrides) (
              add_layer-value file key blueprint sw
              ∙ ap (layer_value file key blueprint)
                  (add_layer-value file key software no_files ∙ unfold lookup in refl)),
      add_layer-IsOrdered overrides bp (
          add_layer-IsOrdered blueprint sw
            (add_layer-IsOrdered software no_files (record { once = tt; there = tt }))),
    )
