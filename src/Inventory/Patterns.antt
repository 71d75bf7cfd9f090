-- ===== src/Inventory/Patterns.antt =====
-- src/inventory/include.rs and path.rs: the files that an include names.
use color_ssh.Base.{
  ℕ, ◌==◌, Text, codes, is_empty, contains, strip_prefix, join, Option, none, some, Bool, true,
  false, ◌&&◌, ◌||◌, List, [], ◌∷◌, ◌++◌, if◌then◌else◌, map, ltb, ◌≡◌, ◌≢◌, ◌↔◌, refl, sym, subst,
  ==_iff, inl, inr, arith, Bool-cases,
}

-- `dirs::home_dir`
unfoldable pub expand_tilde : Option Text → Text → Text
unfolding strip_prefix
expand_tilde none path = path
expand_tilde (some home) path = elim (strip_prefix (codes "~/") path) [
  | some rest ↦ home ++ b'/' ∷ rest
  | none ↦ path
]

-- `is_absolute` on Unix
abbrev pub is_absolute : Text → Bool
is_absolute [] = false
is_absolute (c ∷ s) = c == b'/'

unfoldable pub resolve_include_pattern : Option Text → Text → Text → Text
unfolding expand_tilde join
resolve_include_pattern home pattern base_dir =
    let expanded = expand_tilde home pattern in
    if is_absolute expanded then expanded else join base_dir expanded

-- The scan behind a `*` that is not the last: some rest that is not empty matches.
unfoldable pub some_rest : (Text → Bool) → Text → Bool
some_rest f [] = false
some_rest f (c ∷ s) = f (c ∷ s) || some_rest f s

unfoldable pub matches_pattern : Text → Text → Bool
unfolding some_rest
matches_pattern text [] = is_empty text
matches_pattern [] (p ∷ pattern) = false
matches_pattern (c ∷ text) (p ∷ pattern) =
    let here = matches_pattern text pattern in
    if p == b'*'
    then if is_empty pattern
      then true
      else some_rest (λ rest. matches_pattern rest pattern) (c ∷ text)
    else if p == b'?'
    then here
    else (c == p && here)

-- The wildcards, as the program reads them: a `*` stands for any characters, and for at least one
-- where nothing follows it.
pub data Matches : Text → Text → Type 0 where
  nothing : Matches [] []
  rest : (c : ℕ) (s : Text) → Matches (c ∷ s) (b'*' ∷ [])
  skip : (s pattern : Text) → s ≢ [] → pattern ≢ [] → Matches s pattern → Matches s (b'*' ∷ pattern)
  take :
      (c : ℕ) (s pattern : Text)
      → pattern ≢ []
      → Matches s (b'*' ∷ pattern)
      → Matches (c ∷ s) (b'*' ∷ pattern)
  any : (c : ℕ) (s pattern : Text) → Matches s pattern → Matches (c ∷ s) (b'?' ∷ pattern)
  same : (c : ℕ) (s pattern : Text) → c ≢ b'*' → Matches s pattern → Matches (c ∷ s) (c ∷ pattern)

some_rest-Matches :
    (pattern : Text)
    → pattern ≢ []
    → ((s : Text) → matches_pattern s pattern ≡ true → Matches s pattern)
    → (s : Text) → some_rest (λ rest. matches_pattern rest pattern) s ≡ true
    → Matches s (b'*' ∷ pattern)
unfolding some_rest
some_rest-Matches pattern some_pattern sound [] h = cc
some_rest-Matches pattern some_pattern sound (c ∷ s) h =
    elim (Bool-cases (matches_pattern (c ∷ s) pattern)) [
      | inl e ↦ skip (c ∷ s) pattern (λ e. cc) some_pattern (sound (c ∷ s) e)
      | inr e ↦
          take c s pattern some_pattern
            (some_rest-Matches pattern some_pattern sound s (ground (arith, e)))
    ]

star-Matches :
    (c : ℕ) (s pattern : Text)
    → ((s : Text) → matches_pattern s pattern ≡ true → Matches s pattern)
    → matches_pattern (c ∷ s) (b'*' ∷ pattern) ≡ true
    → Matches (c ∷ s) (b'*' ∷ pattern)
unfolding matches_pattern
star-Matches c s [] sound h = rest c s
star-Matches c s (p ∷ pattern) sound h = some_rest-Matches (p ∷ pattern) (λ e. cc) sound (c ∷ s) h

matches-Matches : (s pattern : Text) → matches_pattern s pattern ≡ true → Matches s pattern
unfolding matches_pattern
matches-Matches [] [] h = nothing
matches-Matches (c ∷ s) [] h = cc
matches-Matches [] (p ∷ pattern) h = cc
matches-Matches (c ∷ s) (p ∷ pattern) h = elim (Bool-cases (p == b'*')) [
  | inl e ↦
      let is = (==_iff p b'*').0 e in
      subst (λ p. Matches (c ∷ s) (p ∷ pattern)) (sym is)
        (star-Matches c s pattern (λ s. matches-Matches s pattern)
          (subst (λ p. matches_pattern (c ∷ s) (p ∷ pattern) ≡ true) is h))
  | inr e ↦ elim (Bool-cases (p == b'?')) [
    | inl f ↦
        subst (λ p. Matches (c ∷ s) (p ∷ pattern)) (sym ((==_iff p b'?').0 f))
          (any c s pattern (matches-Matches s pattern (ground (arith, e, f))))
    | inr f ↦
        let is : c ≡ p = ground (arith, e, f) in
        subst (λ p. Matches (c ∷ s) (p ∷ pattern)) is
          (same c s pattern (ground (arith, e)) (matches-Matches s pattern (ground (arith, e, f))))
  ]
]

star_here :
    (s pattern : Text)
    → s ≢ []
    → matches_pattern s pattern ≡ true
    → matches_pattern s (b'*' ∷ pattern) ≡ true
unfolding matches_pattern some_rest
star_here [] pattern hs h = absurd (hs refl)
star_here (c ∷ s) [] hs h = refl
star_here (c ∷ s) (p ∷ pattern) hs h = ground arith

star_later :
    (c : ℕ) (s pattern : Text)
    → matches_pattern s (b'*' ∷ pattern) ≡ true
    → matches_pattern (c ∷ s) (b'*' ∷ pattern) ≡ true
unfolding matches_pattern some_rest
star_later c [] pattern h = cc
star_later c (d ∷ s) [] h = refl
star_later c (d ∷ s) (p ∷ pattern) h = ground arith

Matches-matches : (s pattern : Text) → Matches s pattern → matches_pattern s pattern ≡ true
unfolding matches_pattern
Matches-matches _ _ nothing = refl
Matches-matches _ _ (rest c s) = refl
Matches-matches _ _ (skip s pattern hs hp m) = star_here s pattern hs (Matches-matches s pattern m)
Matches-matches _ _ (take c s pattern hp m) =
    star_later c s pattern (Matches-matches s (b'*' ∷ pattern) m)
Matches-matches _ _ (any c s pattern m) = Matches-matches s pattern m
Matches-matches _ _ (same c s pattern n m) = ground (arith, Matches-matches s pattern m)

-- A file name matches an include's pattern exactly where the wildcards, taken one by one, fit it: a
-- `?` one character, a last `*` one or more, any other `*` none or more.
pub matches_pattern_iff :
    (text pattern : Text) → (matches_pattern text pattern ≡ true) ↔ Matches text pattern
matches_pattern_iff text pattern = (matches-Matches text pattern, Matches-matches text pattern)

-- What the standard library and the file system answer of paths.
pub record Paths : Type 0 where
  pub home_dir : Option Text
  pub canonicalize : Text → Text
  pub parent : Text → Text
  pub file_name : Text → Option Text
  pub file_stem : Text → Option Text
  pub is_file : Text → Bool
  -- The names in a directory, each with whether it is a file.
  pub read_dir : Text → List (Text × Bool)

unfoldable pub text_leb : Text → Text → Bool
text_leb [] t = true
text_leb (c ∷ s) [] = false
text_leb (c ∷ s) (d ∷ t) = ltb c d || (c == d && text_leb s t)

unfoldable pub sorted_in : Text → List Text → List Text
unfolding text_leb
sorted_in name [] = name ∷ []
sorted_in name (n ∷ names) = if text_leb name n then name ∷ n ∷ names else n ∷ sorted_in name names

unfoldable pub matched_names : Text → List (Text × Bool) → List Text
unfolding matches_pattern sorted_in
matched_names pattern [] = []
matched_names pattern ((name, is_file) ∷ entries) =
    let others = matched_names pattern entries in
    if is_file && matches_pattern name pattern then sorted_in name others else others

abbrev pub or_star : Option Text → Text
or_star none = codes "*"
or_star (some name) = name

unfoldable pub expand_include_pattern : Paths → Text → List Text
unfolding matched_names join
expand_include_pattern paths pattern =
    if contains b'*' pattern || contains b'?' pattern
    then map (λ name. join (paths.parent pattern) name)
        (matched_names (or_star (paths.file_name pattern)) (paths.read_dir (paths.parent pattern)))
    else if paths.is_file pattern
    then pattern ∷ []
    else []
