-- ===== src/Names/Tests.antt =====
-- The names (crates/play-on-air/src/names.rs) at concrete inputs.
use play_on_air.Prelude.{◌≡◌, ◌++◌, Bool, true, false, some, ◌≢◌, List, [], ◌∷◌, min, length, refl}
use play_on_air.Prelude.Text.{Text, codes, same_text, starts_with}
use play_on_air.Prelude.Maps.{lookup}
use play_on_air.Names.Fixed.{resolve_suffix_clashes-fixed_names}
use play_on_air.Names.{
  Candidate, fixed_names, resolve_suffix_clashes, id_chars, other_chars, id_suffix,
  min_id_suffix_len,
}
use play_on_air.Names.Suffixes.{IsShortest, id_suffix-IsShortest, id_suffix-≢}

abbrev group : List Text
group = codes "ab-cd-1" ∷ codes "ABCD2" ∷ []

id_suffix-IsShortest_example :
    IsShortest
      (min min_id_suffix_len (length (id_chars (codes "ABCD2"))))
      (id_chars (codes "ABCD2"))
      (other_chars (codes "ABCD2") group)
      (id_suffix (codes "ABCD2") group)
id_suffix-IsShortest_example = id_suffix-IsShortest (codes "ABCD2") group

id_suffix-≢_example : id_suffix (codes "ab-cd-1") group ≢ id_suffix (codes "ABCD2") group
unfolding same_text starts_with id_chars
id_suffix-≢_example = id_suffix-≢ (codes "ab-cd-1") (codes "ABCD2") group refl refl refl

abbrev named : Text → Text → Bool → Candidate
named id name fixed = record { id = id; model = []; name = name; fixed = fixed }

-- Two devices of one name, the second of which was given it in the configuration.
resolve_suffix_clashes-fixed_names_example :
    let visible =
      (named (codes "a1") (codes "Den") false ∷ [])
      ++ (named (codes "b2") (codes "Den") true ∷ []) in
    lookup (codes "b2") (resolve_suffix_clashes (λ t. t) visible (fixed_names (λ t. t) visible []))
    ≡ some (codes "Den")
unfolding same_text
resolve_suffix_clashes-fixed_names_example =
    resolve_suffix_clashes-fixed_names (λ t. t) (named (codes "a1") (codes "Den") false ∷ []) []
      (named (codes "b2") (codes "Den") true) [] refl (refl, tt) tt
