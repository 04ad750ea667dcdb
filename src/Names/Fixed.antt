-- ===== src/Names/Fixed.antt =====
-- Names that the configuration or the Home app gives (names.rs) are advertised as they are.
use play_on_air.Prelude.{
  ◌≡◌, refl, ap, ◌∙◌, Bool, true, false, List, [], ◌∷◌, ◌++◌, map, Option, none, some,
  if◌then◌else◌,
}
use play_on_air.Prelude.Text.{Text, same_text}
use play_on_air.Prelude.Maps.{lookup, insert, lookup-insert, same_text_refl}
use play_on_air.Names.{Candidate, fixed_names, resolve_one, resolve_clashes, resolve_suffix_clashes}

-- No candidate of the list has this id.
abbrev pub AllOther : Text → List Candidate → Type 0
AllOther id [] = Unit {0}
AllOther id (c ∷ cs) = (same_text id c.id ≡ false) × AllOther id cs

insert-other :
    (id j name : Text) (names : List (Text × Text))
    → same_text id j ≡ false
    → lookup id (insert j name names) ≡ lookup id names
insert-other id j name names h = lookup-insert id j name names ∙ rw h refl

kept :
    (b : Bool) (id j name : Text) (names : List (Text × Text))
    → same_text id j ≡ false
    → lookup id (if b then names else insert j name names) ≡ lookup id names
kept true id j name names h = refl
kept false id j name names h = insert-other id j name names h

module _ (to_lowercase : Text → Text) where
  fixed_names-other :
      (id : Text) (cs : List Candidate) (names : List (Text × Text))
      → AllOther id cs
      → lookup id (fixed_names to_lowercase cs names) ≡ lookup id names
  unfolding fixed_names
  fixed_names-other id [] names h = refl
  fixed_names-other id (c ∷ cs) names h =
      fixed_names-other id cs (if c.fixed then insert c.id c.name names else names) h.1
      ∙ once c.fixed
    where
      once :
          (b : Bool) → lookup id (if b then insert c.id c.name names else names) ≡ lookup id names
      once true = insert-other id c.id c.name names h.0
      once false = refl

  resolve_one-other :
      (counted : List (Text × Text)) (ids : List Text) (id : Text) (c : Candidate) (o : Option Text)
      (names : List (Text × Text))
      → same_text id c.id ≡ false
      → lookup id (resolve_one to_lowercase counted ids c o names) ≡ lookup id names
  unfolding resolve_one
  resolve_one-other counted ids id c none names h = refl
  resolve_one-other counted ids id c (some current) names h = kept _ id c.id _ names h

  -- A fixed candidate is never renamed.
  resolve_one-fixed :
      (counted : List (Text × Text)) (ids : List Text) (c : Candidate) (o : Option Text)
      (names : List (Text × Text))
      → c.fixed ≡ true
      → resolve_one to_lowercase counted ids c o names ≡ names
  unfolding resolve_one
  resolve_one-fixed counted ids c none names h = refl
  resolve_one-fixed counted ids c (some current) names h = rw h refl

  resolve_clashes-other :
      (counted : List (Text × Text)) (ids : List Text) (id : Text) (cs : List Candidate)
      (names : List (Text × Text))
      → AllOther id cs
      → lookup id (resolve_clashes to_lowercase counted ids cs names) ≡ lookup id names
  unfolding resolve_clashes
  resolve_clashes-other counted ids id [] names h = refl
  resolve_clashes-other counted ids id (c ∷ cs) names h =
      resolve_clashes-other counted ids id cs
        (resolve_one to_lowercase counted ids c (lookup c.id names) names) h.1
      ∙ resolve_one-other counted ids id c (lookup c.id names) names h.0

  resolve_clashes-fixed :
      (counted : List (Text × Text)) (ids : List Text) (xs ys : List Candidate) (c : Candidate)
      (names : List (Text × Text))
      → c.fixed ≡ true
      → AllOther c.id xs
      → AllOther c.id ys
      → lookup c.id (resolve_clashes to_lowercase counted ids (xs ++ (c ∷ ys)) names)
        ≡ lookup c.id names
  unfolding resolve_clashes
  resolve_clashes-fixed counted ids [] ys c names h before after =
      resolve_clashes-other counted ids c.id ys
        (resolve_one to_lowercase counted ids c (lookup c.id names) names) after
      ∙ ap (lookup c.id) (resolve_one-fixed counted ids c (lookup c.id names) names h)
  resolve_clashes-fixed counted ids (x ∷ xs) ys c names h before after =
      resolve_clashes-fixed counted ids xs ys c
        (resolve_one to_lowercase counted ids x (lookup x.id names) names) h before.1 after
      ∙ resolve_one-other counted ids c.id x (lookup x.id names) names before.0

  fixed_names-own :
      (xs ys : List Candidate) (c : Candidate) (names : List (Text × Text))
      → c.fixed ≡ true
      → AllOther c.id ys
      → lookup c.id (fixed_names to_lowercase (xs ++ (c ∷ ys)) names) ≡ some c.name
  unfolding fixed_names
  fixed_names-own [] ys c names h after =
      fixed_names-other c.id ys (if c.fixed then insert c.id c.name names else names) after
      ∙ rw h (lookup-insert c.id c.id c.name names ∙ rw (same_text_refl c.id) refl)
  fixed_names-own (x ∷ xs) ys c names h after =
      fixed_names-own xs ys c (if x.fixed then insert x.id x.name names else names) h after

  -- Where the ids are distinct, a device with a fixed name is advertised under that very name,
  -- whatever the names of the others and of the groups are.
  pub resolve_suffix_clashes-fixed_names :
      (xs ys : List Candidate) (c : Candidate) (grouped : List (Text × Text))
      → c.fixed ≡ true
      → AllOther c.id xs
      → AllOther c.id ys
      → let visible = xs ++ (c ∷ ys) in
        lookup c.id
          (resolve_suffix_clashes to_lowercase visible (fixed_names to_lowercase visible grouped))
        ≡ some c.name
  unfolding resolve_suffix_clashes
  resolve_suffix_clashes-fixed_names xs ys c grouped h before after =
      let names = fixed_names to_lowercase (xs ++ (c ∷ ys)) grouped in
      resolve_clashes-fixed names (map (λ d. d.id) (xs ++ (c ∷ ys))) xs ys c names h before after
      ∙ fixed_names-own xs ys c grouped h after
