-- ===== src/Agent/Runtime/Members.antt =====
-- Which leases can stand in a list behind the changes that the runtime makes to it.
use mathlib.Core.List.{Memᴰ}
use color_ssh.Base.{
  ℕ, zero, suc, none, some, Bool, true, false, List, [], ◌∷◌, ◌++◌, ◌≡◌, ◌⊎◌, inl, inr, arith,
  Option-cases, keep, retain,
}
use color_ssh.Agent.Runtime.{AskpassLease, set, pop, swap_remove}
use color_ssh.Agent.Runtime.Leases.{pop-eq}

pub not-nil : {a : AskpassLease} → ¬ (Memᴰ a [])
not-nil m = elim m [ ]

Memᴰ-set :
    (xs : List AskpassLease) (i : ℕ) (v : AskpassLease) {a : AskpassLease}
    → Memᴰ a (set xs i v)
    → (Memᴰ a xs) ⊎ (a ≡ v)
unfolding set
Memᴰ-set [] i v m = inl m
Memᴰ-set (x ∷ xs) zero v (Memᴰ.head e) = inr e
Memᴰ-set (x ∷ xs) zero v (Memᴰ.tail m) = inl (Memᴰ.tail m)
Memᴰ-set (x ∷ xs) (suc i) v (Memᴰ.head e) = inl (Memᴰ.head e)
Memᴰ-set (x ∷ xs) (suc i) v (Memᴰ.tail m) = elim (Memᴰ-set xs i v m) [
  | inl n ↦ inl (Memᴰ.tail n)
  | inr e ↦ inr e
]

pub Memᴰ-snoc :
    (xs : List AskpassLease) {a v : AskpassLease} → Memᴰ a (xs ++ v ∷ []) → (Memᴰ a xs) ⊎ (a ≡ v)
Memᴰ-snoc [] (Memᴰ.head e) = inr e
Memᴰ-snoc [] (Memᴰ.tail m) = elim m [ ]
Memᴰ-snoc (x ∷ xs) (Memᴰ.head e) = inl (Memᴰ.head e)
Memᴰ-snoc (x ∷ xs) (Memᴰ.tail m) = elim (Memᴰ-snoc xs m) [
  | inl n ↦ inl (Memᴰ.tail n)
  | inr e ↦ inr e
]

snoc-Memᴰ :
    (xs : List AskpassLease) {a v : AskpassLease} → (Memᴰ a xs) ⊎ (a ≡ v) → Memᴰ a (xs ++ v ∷ [])
snoc-Memᴰ [] (inl m) = elim m [ ]
snoc-Memᴰ [] (inr e) = Memᴰ.head e
snoc-Memᴰ (x ∷ xs) (inl (Memᴰ.head e)) = Memᴰ.head e
snoc-Memᴰ (x ∷ xs) (inl (Memᴰ.tail m)) = Memᴰ.tail (snoc-Memᴰ xs (inl m))
snoc-Memᴰ (x ∷ xs) (inr e) = Memᴰ.tail (snoc-Memᴰ xs (inr e))

Memᴰ-keep :
    (b : Bool) (x : AskpassLease) (kept xs : List AskpassLease) {a : AskpassLease}
    → (Memᴰ a kept → Memᴰ a xs)
    → Memᴰ a (keep b x kept)
    → Memᴰ a (x ∷ xs)
Memᴰ-keep true x kept xs sub (Memᴰ.head e) = Memᴰ.head e
Memᴰ-keep true x kept xs sub (Memᴰ.tail m) = Memᴰ.tail (sub m)
Memᴰ-keep false x kept xs sub m = Memᴰ.tail (sub m)

pub Memᴰ-retain :
    (q : AskpassLease → Bool) (xs : List AskpassLease) {a : AskpassLease}
    → Memᴰ a (retain q xs)
    → Memᴰ a xs
Memᴰ-retain q [] m = m
Memᴰ-retain q (x ∷ xs) m = Memᴰ-keep (q x) x (retain q xs) xs (Memᴰ-retain q xs) m

swap_remove-eq :
    (i : ℕ) (xs rest : List AskpassLease) (last : AskpassLease)
    → pop xs ≡ some (rest, last)
    → swap_remove i xs ≡ set rest i last
unfolding swap_remove
swap_remove-eq i xs rest last e = ground arith

swap_remove-none : (i : ℕ) (xs : List AskpassLease) → pop xs ≡ none → swap_remove i xs ≡ []
unfolding swap_remove
swap_remove-none i xs e = ground arith

pub Memᴰ-swap_remove :
    (i : ℕ) (xs : List AskpassLease) {a : AskpassLease} → Memᴰ a (swap_remove i xs) → Memᴰ a xs
Memᴰ-swap_remove i xs {a} m = elim (Option-cases (pop xs)) [
  | inl e ↦ elim (not-nil (rw (swap_remove-none i xs e) at m)) [ ]
  | inr ((rest, last), e) ↦
      rw (pop-eq xs rest last e)
        (snoc-Memᴰ rest (Memᴰ-set rest i last (rw (swap_remove-eq i xs rest last e) at m)))
]
