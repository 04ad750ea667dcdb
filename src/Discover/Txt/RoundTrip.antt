-- ===== src/Discover/Txt/RoundTrip.antt =====
-- What `dns-sd` prints of a TXT record is read back (crates/play-on-air/src/discover.rs).
--
-- `printed` is the form that the comments of `unescape_dns_sd` describe.
use play_on_air.Prelude.{
  ℕ, Bool, true, false, not, ◌&&◌, ◌||◌, List, [], ◌∷◌, ◌++◌, ◌==◌, if◌then◌else◌, Bool-cases,
  Option, none, some, ◌≡◌, refl, ap, ◌∙◌, inl, inr, append_assoc, append-nil, map, arith,
}
use play_on_air.Prelude.Text.{Text, is_whitespace}
use play_on_air.Prelude.Maps.{lookup, insert, Unique, same_text-cases, lookup-insert}
use play_on_air.Discover.Txt.{
  pushed, split_loop, split_txt_parts, unescape_loop, unescape_dns_sd, split_once, insert_part,
  insert_parts, parse_txt_blob,
}

abbrev special : ℕ → Bool
special c = c == b'\\' || is_whitespace c

-- Blanks and `\` are printed after a `\`.
abbrev pub escaped : Text → Text
escaped [] = []
escaped (c ∷ cs) = if special c then b'\\' ∷ c ∷ escaped cs else c ∷ escaped cs

abbrev pub entry_text : Text × Text → Text
entry_text (k, v) = k ++ (b'=' ∷ escaped v)

-- Every entry after a blank.
abbrev pub printed : List (Text × Text) → Text
printed [] = []
printed (e ∷ es) = b' ' ∷ (entry_text e ++ printed es)

-- A key that needs no escape and holds no `=`.
abbrev pub plain : Text → Bool
plain [] = true
plain (c ∷ cs) = not (special c) && (not (c == b'=') && plain cs)

abbrev pub plain_keys : List (Text × Text) → Bool
plain_keys [] = true
plain_keys ((k, v) ∷ es) = plain k && plain_keys es

snoc : (cur : Text) (c : ℕ) (s : Text) → (cur ++ (c ∷ [])) ++ s ≡ cur ++ (c ∷ s)
snoc cur c s = append_assoc cur (c ∷ []) s

split-escape :
    (cur s : Text) (c : ℕ)
    → split_loop false cur (b'\\' ∷ c ∷ s) ≡ split_loop false (cur ++ (b'\\' ∷ c ∷ [])) s
unfolding split_loop
split-escape cur s c = ap (λ t. split_loop false t s) (snoc cur b'\\' (c ∷ []))

split-plain :
    (cur s : Text) (c : ℕ)
    → special c ≡ false
    → split_loop false cur (c ∷ s) ≡ split_loop false (cur ++ (c ∷ [])) s
unfolding split_loop
split-plain cur s c e =
    let b : c == b'\\' ≡ false = ground (arith, e) in
    let w : is_whitespace c ≡ false = ground (arith, e) in rw (b, w) refl

-- Escaped text is part of the current part.
split-escaped :
    (v cur rest : Text)
    → split_loop false cur (escaped v ++ rest) ≡ split_loop false (cur ++ escaped v) rest
split-escaped [] cur rest = rw (append-nil cur) refl
split-escaped (c ∷ v) cur rest = elim (Bool-cases (special c)) [
  | inl e ↦ rw e (
      split-escape cur (escaped v ++ rest) c
      ∙ split-escaped v (cur ++ (b'\\' ∷ c ∷ [])) rest
      ∙ ap (λ t. split_loop false t rest) (append_assoc cur (b'\\' ∷ c ∷ []) (escaped v)))
  | inr e ↦ rw e (
      split-plain cur (escaped v ++ rest) c e
      ∙ split-escaped v (cur ++ (c ∷ [])) rest
      ∙ ap (λ t. split_loop false t rest) (snoc cur c (escaped v)))
]

split-key :
    (k cur rest : Text)
    → plain k ≡ true
    → split_loop false cur (k ++ rest) ≡ split_loop false (cur ++ k) rest
split-key [] cur rest h = rw (append-nil cur) refl
split-key (c ∷ k) cur rest h =
    split-plain cur (k ++ rest) c (ground (arith, h))
    ∙ split-key k (cur ++ (c ∷ [])) rest (ground (arith, h))
    ∙ ap (λ t. split_loop false t rest) (snoc cur c k)

split-entry :
    (k v rest : Text)
    → plain k ≡ true
    → split_loop false [] (entry_text (k, v) ++ rest) ≡ split_loop false (entry_text (k, v)) rest
unfolding is_whitespace
split-entry k v rest h =
    ap (λ t. split_loop false [] t) (append_assoc k (b'=' ∷ escaped v) rest)
    ∙ split-key k [] (b'=' ∷ (escaped v ++ rest)) h
    ∙ split-plain k (escaped v ++ rest) b'=' refl
    ∙ split-escaped v (k ++ (b'=' ∷ [])) rest
    ∙ ap (λ t. split_loop false t rest) (snoc k b'=' (escaped v))

split-blank : (cur s : Text) → split_loop false cur (b' ' ∷ s) ≡ pushed cur (split_loop false [] s)
unfolding split_loop is_whitespace
split-blank cur s = refl

entry_nonempty : (k v : Text) (l : List Text) → pushed (entry_text (k, v)) l ≡ entry_text (k, v) ∷ l
entry_nonempty [] v l = refl
entry_nonempty (c ∷ k) v l = refl

split-printed :
    (es : List (Text × Text)) (cur : Text)
    → plain_keys es ≡ true
    → split_loop false cur (printed es) ≡ pushed cur (map entry_text es)
unfolding split_loop
split-printed [] cur h = refl
split-printed ((k, v) ∷ es) cur h =
    split-blank cur (entry_text (k, v) ++ printed es)
    ∙ ap (pushed cur) (
        split-entry k v (printed es) (ground (arith, h))
        ∙ split-printed es (entry_text (k, v)) (ground (arith, h))
        ∙ entry_nonempty k v (map entry_text es))

unescape-escaped : (v : Text) → unescape_loop false (escaped v) ≡ v
unfolding unescape_loop
unescape-escaped [] = refl
unescape-escaped (c ∷ v) = elim (Bool-cases (special c)) [
  | inl e ↦ rw e (ap (λ t. c ∷ t) (unescape-escaped v))
  | inr e ↦
      let b : c == b'\\' ≡ false = ground (arith, e) in
      rw (e, b) (ap (λ t. c ∷ t) (unescape-escaped v))
]

split_once-key : (k s : Text) → plain k ≡ true → split_once b'=' (k ++ (b'=' ∷ s)) ≡ some (k, s)
unfolding split_once
split_once-key [] s h = refl
split_once-key (c ∷ k) s h =
    let n : c == b'=' ≡ false = ground (arith, h) in
    rw (n, split_once-key k s (ground (arith, h))) refl

-- What the entries leave in the map, one `insert` after the other.
inserted : List (Text × Text) → List (Text × Text) → List (Text × Text)
inserted [] m = m
inserted ((k, v) ∷ es) m = inserted es (insert k v m)

insert_part-entry :
    (k v : Text) (m : List (Text × Text))
    → plain k ≡ true
    → insert_part (split_once b'=' (entry_text (k, v))) m ≡ insert k v m
unfolding insert_part unescape_dns_sd
insert_part-entry k v m h =
    ap (λ o. insert_part o m) (split_once-key k (escaped v) h)
    ∙ ap (λ t. insert k t m) (unescape-escaped v)

insert_parts-entries :
    (es m : List (Text × Text))
    → plain_keys es ≡ true
    → insert_parts (map entry_text es) m ≡ inserted es m
unfolding insert_parts inserted
insert_parts-entries [] m h = refl
insert_parts-entries ((k, v) ∷ es) m h =
    ap (insert_parts (map entry_text es)) (insert_part-entry k v m (ground (arith, h)))
    ∙ insert_parts-entries es (insert k v m) (ground (arith, h))

otherwise : Option Text → Option Text → Option Text
otherwise none o = o
otherwise (some v) o = some v

lookup-inserted :
    (x : Text) (es m : List (Text × Text))
    → Unique es
    → lookup x (inserted es m) ≡ otherwise (lookup x es) (lookup x m)
unfolding inserted otherwise
lookup-inserted x [] m u = refl
lookup-inserted x ((k, v) ∷ es) m u =
    lookup-inserted x es (insert k v m) u.1
    ∙ ap (otherwise (lookup x es)) (lookup-insert x k v m)
    ∙ elim (same_text-cases x k) [ inl (p, e) ↦ rw (e, p, u.0) refl | inr (p, e) ↦ rw e refl ]

-- The TXT record that was printed is read back, key by key, provided the keys are different and
-- need no escape; the values are any text.
pub parse-printed :
    (es : List (Text × Text)) (k : Text)
    → plain_keys es ≡ true
    → Unique es
    → lookup k (parse_txt_blob (printed es)) ≡ lookup k es
unfolding parse_txt_blob split_txt_parts otherwise
parse-printed es k h u =
    ap (λ l. lookup k (insert_parts l [])) (split-printed es [] h)
    ∙ ap (lookup k) (insert_parts-entries es [] h)
    ∙ lookup-inserted k es [] u
    ∙ or_none (lookup k es)
  where
    or_none : (o : Option Text) → otherwise o none ≡ o
    or_none none = refl
    or_none (some v) = refl
