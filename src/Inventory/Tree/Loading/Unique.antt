-- ===== src/Inventory/Tree/Loading/Unique.antt =====
-- No two hosts of an inventory have a name in common, and each host stands at one place in the tree.
use color_ssh.Base.{
  ℕ, suc, ◌+◌, ltb, ◌==◌, Text, text_eq, text_eq_iff, Result, ok, err, Option, none, some, List, [],
  ◌∷◌, ◌++◌, if◌then◌else◌, length, ◌≡◌, refl, inl, inr, arith, Bool-cases, Option-cases,
}
use color_ssh.Inventory.Model.{InventoryHost, folder}
use color_ssh.Inventory.Tree.Folders.{Folder, Folders, folder, no_folder, child, push_index}
use color_ssh.Inventory.Tree.Loading.{
  LoadError, Loaded, Load, lookup, continued, and_then, done, add_host,
}

-- How often an index stands in a list, and in a folder with its children.
unfoldable pub occurrences : ℕ → List ℕ → ℕ
occurrences i [] = 0
occurrences i (j ∷ js) = (if j == i then 1 else 0) + occurrences i js

unfoldable mutual
  unfolding occurrences

  pub places : ℕ → Folder → ℕ
  places i (folder name path children host_indices) =
      occurrences i host_indices + places_below i children

  pub places_below : ℕ → Folders → ℕ
  places_below i no_folder = 0
  places_below i (child f rest) = places i f + places_below i rest

occurrences-append :
    (i j : ℕ) (js : List ℕ)
    → occurrences i (js ++ j ∷ []) ≡ occurrences i js + (if j == i then 1 else 0)
unfolding occurrences
occurrences-append i j [] = ground arith
occurrences-append i j (k ∷ js) = ground (arith, occurrences-append i j js)

places-push_index :
    (i j : ℕ) (f : Folder) → places i (push_index j f) ≡ places i f + (if j == i then 1 else 0)
unfolding places
places-push_index i j (folder name path children host_indices) =
    ground (arith, occurrences-append i j host_indices)

length-append :
    (hosts : List InventoryHost) (added : InventoryHost)
    → length (hosts ++ added ∷ []) ≡ suc (length hosts)
length-append [] added = refl
length-append (h ∷ hosts) added = ground (arith, length-append hosts added)

-- How many hosts have a name.
unfoldable pub named : Text → List InventoryHost → ℕ
named name [] = 0
named name (h ∷ hosts) = (if text_eq h.name name then 1 else 0) + named name hosts

named-append :
    (name : Text) (hosts : List InventoryHost) (added : InventoryHost)
    → named name (hosts ++ added ∷ [])
      ≡ named name hosts + (if text_eq added.name name then 1 else 0)
unfolding named
named-append name [] added = ground arith
named-append name (h ∷ hosts) added = ground (arith, named-append name hosts added)

abbrev pub present : Option Text → ℕ
present none = 0
present (some path) = 1

-- The names that are seen are the names of the hosts, each of one host.
pub record IsUnique (s : Loaded) : Type 0 where
  pub once : (name : Text) → named name s.hosts ≡ present (lookup name s.seen_host_names)

abbrev pub below : ℕ → Loaded → ℕ
below i s = if ltb i (length s.hosts) then 1 else 0

-- A change keeps names unique, and puts each host that it adds at one place.
unfoldable pub IsKept :
    {A : Type 0} → (ℕ → A → ℕ) → A → Loaded → Result LoadError (A × Loaded) → Type 0
IsKept count a s (ok (b, t)) =
    ((i : ℕ) → count i b + below i s ≡ count i a + below i t) × (IsUnique s → IsUnique t)
IsKept count a s (err e) = Unit

pub record Keeps (step : Load) : Type 0 where
  pub kept : (f : Folder) (s : Loaded) → IsKept places f s (step f s)

pub done-Keeps : Keeps done
unfolding IsKept
done-Keeps = record { kept = λ f s. ((λ i. refl), λ u. u) }

composed-IsKept :
    (f g : Folder) (s t : Loaded) (r : Result LoadError (Folder × Loaded))
    → IsKept places f s (ok (g, t))
    → IsKept places g t r
    → IsKept places f s r
unfolding IsKept
composed-IsKept f g s t (err e) h k = tt
composed-IsKept f g s t (ok (j, u)) h k =
    ((λ i. ground (arith, h.0 i, k.0 i)), λ unique. k.1 (h.1 unique))

continued-IsKept :
    (second : Load)
    → Keeps second
    → (f : Folder) (s : Loaded) (r : Result LoadError (Folder × Loaded)) → IsKept places f s r
    → IsKept places f s (continued second r)
unfolding IsKept
continued-IsKept second q f s (err e) h = tt
continued-IsKept second q f s (ok (g, t)) h = composed-IsKept f g s t (second g t) h (q.kept g t)

pub and_then-Keeps :
    (first second : Load) → Keeps first → Keeps second → Keeps (and_then first second)
and_then-Keeps first second p q = record {
  kept = λ f s. continued-IsKept second q f s (first f s) (p.kept f s);
}

add_host-IsUnique :
    (added : InventoryHost) (s t : Loaded)
    → lookup added.name s.seen_host_names ≡ none
    → t.hosts ≡ s.hosts ++ added ∷ []
    → t.seen_host_names ≡ (added.name, added.source_file) ∷ s.seen_host_names
    → IsUnique s
    → IsUnique t
unfolding lookup
add_host-IsUnique added s t n hosts seen u = record {
  once = λ name. elim (Bool-cases (text_eq added.name name)) [
    | inl e ↦ ground (
      arith,
      e,
      n,
      hosts,
      seen,
      named-append name s.hosts added,
      u.once name,
      (text_eq_iff added.name name).0 e,
    )
    | inr e ↦ ground (arith, e, hosts, seen, named-append name s.hosts added, u.once name)
  ];
}

pub add_host-Keeps :
    (added : InventoryHost) (source_file : Text) → Keeps (add_host added source_file)
unfolding add_host IsKept
add_host-Keeps added source_file = record {
  kept = λ f s. elim (Option-cases (lookup added.name s.seen_host_names)) [
    | inr (p, n) ↦ rw (n, IsKept, add_host) tt
    | inl n ↦
        rw (n, IsKept, add_host)
          (
            (λ i.
                ground
                  (arith, places-push_index i (length s.hosts) f, length-append s.hosts added)),
            add_host-IsUnique added s _ n refl refl,
          )
  ];
}
