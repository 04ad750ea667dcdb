-- ===== src/Names/Suffixes.antt =====
-- The id suffixes of names.rs tell devices apart.
use play_on_air.Prelude.{
  ℕ, zero, suc, ◌+◌, ◌≡◌, ◌≢◌, ◌≤◌, ◌<◌, ◌⊎◌, inl, inr, refl, ◌∙◌, min, Bool, true, false, ◌||◌,
  List, [], ◌∷◌, take, length, ◌==◌, ==_iff, Bool-cases, take-le, arith,
}
use play_on_air.Prelude.Text.{Text, same_text, starts_with}
use play_on_air.Prelude.Maps.Sweep.{has}
use play_on_air.Prelude.Maps.{same_text-cases}
use play_on_air.Names.{id_chars, clashes, suffix_loop, other_chars, id_suffix, min_id_suffix_len}

-- The result is the shortest prefix, of at least `len` characters, that begins none of the others;
-- or the whole id.
pub record IsShortest (len : ℕ) (mine : Text) (others : List Text) (result : Text) : Type 0 where
  pub cut : ℕ
  pub is_prefix : result ≡ take cut mine
  pub long_enough : len ≤ cut
  pub bounded : cut ≤ length mine
  pub distinct : (cut ≡ length mine) ⊎ (clashes others result ≡ false)
  pub shortest : (j : ℕ) → len ≤ j → j < cut → clashes others (take j mine) ≡ true

suffix_loop-IsShortest :
    (left len : ℕ) (mine : Text) (others : List Text)
    → len + left ≡ length mine
    → IsShortest len mine others (suffix_loop left len mine others)
unfolding suffix_loop
suffix_loop-IsShortest zero len mine others e = record {
  cut = len;
  is_prefix = refl;
  long_enough = omega arith;
  bounded = omega arith;
  distinct = inl (omega arith);
  shortest = λ j a b. absurd (omega arith);
}
suffix_loop-IsShortest (suc left) len mine others e =
    elim (Bool-cases (clashes others (take len mine))) [
      | inl taken ↦
          rw taken (longer taken (suffix_loop-IsShortest left (suc len) mine others (omega arith)))
      | inr free ↦ rw free (record {
        cut = len;
        is_prefix = refl;
        long_enough = omega arith;
        bounded = omega arith;
        distinct = inr free;
        shortest = λ j a b. absurd (omega arith);
      })
    ]
  where
    longer :
        clashes others (take len mine) ≡ true
        → IsShortest (suc len) mine others (suffix_loop left (suc len) mine others)
        → IsShortest len mine others (suffix_loop left (suc len) mine others)
    longer taken s = record {
      cut = s.cut;
      is_prefix = s.is_prefix;
      long_enough = omega (arith, s.long_enough);
      bounded = s.bounded;
      distinct = s.distinct;
      shortest = λ j a b. later j a b;
    }
      where
        later : (j : ℕ) → len ≤ j → j < s.cut → clashes others (take j mine) ≡ true
        later j a b = elim (Bool-cases (j == len)) [
          | inl e ↦ rw ((==_iff j len).0 e) taken
          | inr e ↦ s.shortest j (ground (arith, a, e)) b
        ]

-- An id's suffix is the shortest prefix of its characters, of at least four (or all of a shorter id),
-- that begins no other id of the group; or all of them.
pub id_suffix-IsShortest :
    (id : Text) (group : List Text)
    → IsShortest
        (min min_id_suffix_len (length (id_chars id)))
        (id_chars id)
        (other_chars id group)
        (id_suffix id group)
unfolding id_suffix
id_suffix-IsShortest id group =
    suffix_loop-IsShortest _ _ (id_chars id) (other_chars id group) (omega arith)

starts_with-take : (k : ℕ) (s : Text) → starts_with s (take k s) ≡ true
unfolding starts_with
starts_with-take zero [] = refl
starts_with-take (suc k) [] = refl
starts_with-take zero (c ∷ cs) = refl
starts_with-take (suc k) (c ∷ cs) = rw ((==_iff c c).1 refl) (starts_with-take k cs)

or-false : (a b : Bool) → (a || b) ≡ false → (a ≡ false) × (b ≡ false)
or-false a b h = ground (arith, h)

unclashed :
    (id other : Text) (group : List Text) (prefix : Text)
    → has other group ≡ true
    → same_text other id ≡ false
    → clashes (other_chars id group) prefix ≡ false
    → starts_with (id_chars other) prefix ≡ false
unfolding other_chars
unclashed id other [] prefix h d c = absurd (ground (arith, h))
unclashed id other (x ∷ xs) prefix h d c = elim (same_text-cases other x) [
  | inl (p, e) ↦
      let apart : same_text x id ≡ false = rw p at d in rw p (or-false _ _ (rw apart at c)).0
  | inr (p, e) ↦
      let later : has other xs ≡ true = rw e at h in
      elim (Bool-cases (same_text x id)) [
        | inl same ↦ unclashed id other xs prefix later d (rw same at c)
        | inr apart ↦ unclashed id other xs prefix later d (or-false _ _ (rw apart at c)).1
      ]
]

-- Two different ids of a group, the letters and digits of the first of which, in lower case, are not
-- the beginning of those of the second, get different suffixes. Ids that are equal up to other
-- characters and case are thus left out.
pub id_suffix-≢ :
    (id other : Text) (group : List Text)
    → has other group ≡ true
    → same_text other id ≡ false
    → starts_with (id_chars other) (id_chars id) ≡ false
    → id_suffix id group ≢ id_suffix other group
id_suffix-≢ id other group h d apart e =
    let mine = id_suffix-IsShortest id group in
    let theirs = id_suffix-IsShortest other group in
    let begins : starts_with (id_chars other) (id_suffix id group) ≡ true =
      rw (e, theirs.is_prefix) (starts_with-take theirs.cut (id_chars other)) in
    elim mine.distinct [
      | inl whole ↦
          let all : id_suffix id group ≡ id_chars id =
            mine.is_prefix ∙ take-le mine.cut (id_chars id) (omega (arith, whole)) in
          absurd (ground (arith, rw all at begins, apart))
      | inr free ↦
          absurd (ground (arith, begins, unclashed id other group (id_suffix id group) h d free))
    ]
