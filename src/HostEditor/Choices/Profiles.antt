-- ===== src/HostEditor/Choices/Profiles.antt =====
-- The profiles that the form offers.
use color_ssh.Base.{
  ℕ, Text, codes, text_eq, to_ascii_lowercase, lower, Option, none, some, Bool, true, false, not,
  ◌&&◌, ◌||◌, List, [], ◌∷◌, ◌++◌, any, is_empty, trim, ◌≡◌, refl, ap₂, ◌==◌, inl, inr, arith,
  Bool-cases,
}
use color_ssh.HostEditor.Fields.{same_word}
use color_ssh.HostEditor.Choices.{
  push_option, push_options, normalize_cycle_options, take_first, is_default, default_first,
  normalize_profile_options,
}

-- No two options are the same word, in any case of their letters, and none is empty.
pub distinct : List Text → Bool
distinct [] = true
distinct (option ∷ options) =
    not (is_empty option)
    && (not (any (λ other. same_word option other) options) && distinct options)

text_eq_sym : (s t : Text) → text_eq s t ≡ text_eq t s
text_eq_sym [] [] = refl
text_eq_sym [] (d ∷ t) = refl
text_eq_sym (c ∷ s) [] = refl
text_eq_sym (c ∷ s) (d ∷ t) =
    let rest = text_eq_sym s t in
    let first : (c == d) ≡ (d == c) = ground arith in ap₂ (λ a b. a && b) first rest

same_word_sym : (a b : Text) → same_word a b ≡ same_word b a
same_word_sym a b = text_eq_sym (to_ascii_lowercase a) (to_ascii_lowercase b)

any-append :
    (p : Text → Bool) (xs : List Text) (x : Text) → any p (xs ++ x ∷ []) ≡ (any p xs || p x)
any-append p [] x = ground arith
any-append p (y ∷ xs) x = ground (arith, any-append p xs x)

distinct-append :
    (xs : List Text) (x : Text)
    → distinct xs ≡ true
    → is_empty x ≡ false
    → any (λ other. same_word other x) xs ≡ false
    → distinct (xs ++ x ∷ []) ≡ true
unfolding distinct
distinct-append [] x d e n = ground (arith, e)
distinct-append (y ∷ xs) x d e n =
    let later = distinct-append xs x in
    let others = any-append (λ other. same_word y other) xs x in
    ground (arith, d, e, n, later, others)

push_option-distinct :
    (xs : List Text) (option : Text) → distinct xs ≡ true → distinct (push_option xs option) ≡ true
unfolding push_option
push_option-distinct xs option d = elim (Bool-cases (is_empty (trim option))) [
  | inl e ↦ rw (e, push_option) d
  | inr e ↦ elim (Bool-cases (any (λ other. same_word other (trim option)) xs)) [
    | inl n ↦ rw (e, n, push_option) d
    | inr n ↦ rw (e, n, push_option) (distinct-append xs (trim option) d e n)
  ]
]

push_options-distinct :
    (xs options : List Text) → distinct xs ≡ true → distinct (push_options xs options) ≡ true
unfolding push_options
push_options-distinct xs [] d = d
push_options-distinct xs (option ∷ options) d =
    push_options-distinct (push_option xs option) options (push_option-distinct xs option d)

swap : (a b c d : Bool) → d ≡ (b || c) → (a || d) ≡ (b || (a || c))
swap a b c d h = ground (arith, h)

any_sym :
    (word : Text) (xs : List Text)
    → any (λ other. same_word word other) xs ≡ any (λ other. same_word other word) xs
any_sym word [] = refl
any_sym word (x ∷ xs) = ap₂ (λ a b. a || b) (same_word_sym word x) (any_sym word xs)

module _ (p : Text → Bool) where
  -- What is taken passes the test, and what is left has everything else.
  IsTaken : List Text → Option (Text × List Text) → Type 0
  IsTaken xs none = any p xs ≡ false
  IsTaken xs (some (found, rest)) =
      (p found ≡ true)
      × (distinct (found ∷ rest) ≡ true)
      × ((q : Text → Bool) → any q xs ≡ (q found || any q rest))

  abbrev put_back : Text → Option (Text × List Text) → Option (Text × List Text)
  put_back x cut = elim cut [ none ↦ none | some found ↦ some (found.0, x ∷ found.1) ]

  IsTaken-later :
      (x : Text) (xs : List Text) (cut : Option (Text × List Text))
      → p x ≡ false
      → distinct (x ∷ xs) ≡ true
      → IsTaken xs cut
      → IsTaken (x ∷ xs) (put_back x cut)
  unfolding IsTaken distinct
  IsTaken-later x xs none e d t = ground (arith, e, t)
  IsTaken-later x xs (some (found, rest)) e d t =
      let apart = t.2 (λ other. same_word x other) in
      let turned = same_word_sym found x in
      (
        t.0,
        ground (arith, d, t.1, apart, turned),
        λ q. let here = t.2 q in swap (q x) (q found) (any q rest) (any q xs) here,
      )

  take_first-IsTaken : (xs : List Text) → distinct xs ≡ true → IsTaken xs (take_first p xs)
  unfolding take_first IsTaken distinct
  take_first-IsTaken [] d = refl
  take_first-IsTaken (x ∷ xs) d = elim (Bool-cases (p x)) [
    | inl e ↦ rw (e, take_first) (e, d, λ q. refl)
    | inr e ↦
        rw (e, take_first)
          (IsTaken-later x xs (take_first p xs) e d (take_first-IsTaken xs (ground (arith, d))))
  ]

-- A list of options whose first is the default, in some case of its letters.
pub IsProfileList : List Text → Type 0
unfolding lower
IsProfileList [] = ◌≡◌ {A = ℕ} 0 1
IsProfileList (first ∷ others) = (is_default first ≡ true) × (distinct (first ∷ others) ≡ true)

default_first-IsProfileList :
    (xs : List Text) (cut : Option (Text × List Text))
    → distinct xs ≡ true
    → IsTaken is_default xs cut
    → IsProfileList (default_first xs cut)
unfolding IsProfileList IsTaken distinct lower
default_first-IsProfileList xs (some (found, rest)) d t = (t.0, t.1)
default_first-IsProfileList xs none d t = (refl, ground (arith, d, t, any_sym (codes "default") xs))

-- The profiles that are offered start with the default profile, and none of them is empty or is there
-- twice, in any case of its letters.
pub normalize_profile_options-IsProfileList :
    (profile_options : List Text) → IsProfileList (normalize_profile_options profile_options)
unfolding normalize_profile_options normalize_cycle_options distinct
normalize_profile_options-IsProfileList profile_options =
    let normalized = push_options [] profile_options in
    let d = push_options-distinct [] profile_options refl in
    default_first-IsProfileList normalized (take_first is_default normalized) d
      (take_first-IsTaken is_default normalized d)
