-- ===== src/Inventory/Edit/Folders/Tallies.antt =====
-- What a change of the nodes of a folder does to the host entries of the whole inventory.
use color_ssh.Base.{
  ℕ, ◌+◌, Text, Result, ok, err, some, Bool, List, [], ◌∷◌, ◌≡◌, inl, inr, arith, Bool-cases,
  Option-cases, trim, is_empty,
}
use color_ssh.Inventory.Value.{
  Value, null, bool, number, string, sequence, mapping, Items, nil, cons, Fields, end, field, push,
  is_host_mapping,
}
use color_ssh.Inventory.Edit.{is_folder}
use color_ssh.Inventory.Edit.Hosts.{tally_node, tally_folder, tally_list, tally}
use color_ssh.Inventory.Edit.Folders.{
  EditError, Edit, behind, in_list, in_only_list, in_folder, enter, folder_node,
  ensure_folder_nodes, find_folder_nodes,
}

pub tally-push :
    (p : Fields → Bool) (v : Value) (nodes : Items)
    → tally p (push v nodes) ≡ tally p nodes + tally_node p v
unfolding push tally_node
tally-push p v nil = ground arith
tally-push p v (cons w rest) = ground (arith, tally-push p v rest)

-- A change that leaves `w x` entries fewer and `d` more, where its result is `x`.
pub record Shifts {A : Type 0} (p : Fields → Bool) (w : A → ℕ) (d : ℕ) (f : Edit A) : Type 0 where
  pub shift :
      (nodes left : Items) (x : A) → f nodes ≡ ok (x, left) → tally p left + w x ≡ tally p nodes + d

pub behind-eq-ok :
    {A B C : Type 0} (f : B → C) (r : Result EditError (A × B)) (x : A) (c : C)
    → behind f r ≡ ok (x, c)
    → (b : B) × (r ≡ ok (x, b)) × (c ≡ f b)
behind-eq-ok f (ok (a, b)) x c h = (b, cc, cc)
behind-eq-ok f (err e) x c h = cc

module _ {A : Type 0} (p : Fields → Bool) (w : A → ℕ) (d : ℕ) where
  tally-in_list :
      (f : Edit A)
      → Shifts p w d f
      → (segment : Text) (v left : Value) (x : A) → in_list f segment v ≡ ok (x, left)
      → tally_list p left + w x ≡ tally_list p v + d
  unfolding tally_node
  tally-in_list f s segment (sequence items) left x h =
      let (l, m, e) = behind-eq-ok sequence (f items) x left h in
      ground (arith, s.shift items l x m, m, e)
  tally-in_list f s segment null left x h = cc
  tally-in_list f s segment (bool b) left x h = cc
  tally-in_list f s segment (number b) left x h = cc
  tally-in_list f s segment (string b) left x h = cc
  tally-in_list f s segment (mapping b) left x h = cc

  tally-in_only_list :
      (f : Edit A)
      → Shifts p w d f
      → (segment : Text) (fields left : Fields) (x : A)
      → in_only_list f segment fields ≡ ok (x, left)
      → (tally_folder p left + w x ≡ tally_folder p fields + d)
        × (is_host_mapping left ≡ is_host_mapping fields)
  unfolding tally_node is_host_mapping
  tally-in_only_list f s segment end left x h = cc
  tally-in_only_list f s segment (field k v end) left x h =
      let (u, m, e) = behind-eq-ok (λ w. field k w end) (in_list f segment v) x left h in
      ground (arith, tally-in_list f s segment v u x m, m, e)
  tally-in_only_list f s segment (field k v (field l u rest)) left x h = cc

  tally-in_folder :
      (f : Edit A)
      → Shifts p w d f
      → (segment : Text) (v left : Value) (x : A) → in_folder f segment v ≡ ok (x, left)
      → tally_node p left + w x ≡ tally_node p v + d
  unfolding tally_node in_folder
  tally-in_folder f s segment (mapping fields) left x h =
      elim (Bool-cases (is_host_mapping fields)) [
        | inl e ↦ absurd (ground (arith, e))
        | inr e ↦
            let (l, m, g) =
              behind-eq-ok mapping (in_only_list f segment fields) x left (ground (arith, e)) in
            let t = tally-in_only_list f s segment fields l x m in ground (arith, t.0, t.1, e, g)
      ]
  tally-in_folder f s segment null left x h = cc
  tally-in_folder f s segment (bool b) left x h = cc
  tally-in_folder f s segment (number b) left x h = cc
  tally-in_folder f s segment (string b) left x h = cc
  tally-in_folder f s segment (sequence b) left x h = cc

  tally-enter :
      (f : Edit A)
      → Shifts p w d f
      → (segment : Text) (nodes left : Items) (x : A) → enter f segment nodes ≡ some (ok (x, left))
      → tally p left + w x ≡ tally p nodes + d
  unfolding tally_node enter
  tally-enter f s segment nil left x h = cc
  tally-enter f s segment (cons v rest) left x h = elim (Bool-cases (is_folder segment v)) [
    | inl e ↦
        let (l, m, g) =
          behind-eq-ok (λ w. cons w rest) (in_folder f segment v) x left (ground (arith, e)) in
        ground (arith, tally-in_folder f s segment v l x m, e, g)
    | inr e ↦ elim (Option-cases (enter f segment rest)) [
      | inl n ↦ absurd (ground (arith, e, n))
      | inr (r, n) ↦
          let (l, m, g) = behind-eq-ok (λ others. cons v others) r x left (ground (arith, e, n)) in
          ground (arith, tally-enter f s segment rest l x (ground (arith, n, m)), e, g)
    ]
  ]

  pub shift-find :
      (f : Edit A) → Shifts p w d f → (path : List Text) → Shifts p w d (find_folder_nodes f path)
  unfolding find_folder_nodes
  shift-find f s [] = record { shift = s.shift }
  shift-find f s (segment ∷ path) = record {
    shift = λ nodes left x h. elim (Bool-cases (is_empty (trim segment))) [
      | inl e ↦ absurd (ground (arith, e))
      | inr e ↦
          elim (Option-cases (enter (λ items. find_folder_nodes f path items) segment nodes)) [
            | inl n ↦ absurd (ground (arith, e, n))
            | inr (r, n) ↦
                tally-enter (λ items. find_folder_nodes f path items) (shift-find f s path) segment
                  nodes left x (ground (arith, e, n))
          ]
    ];
  }

  tally-made :
      (f : Edit A)
      → Shifts p w d f
      → (segment : Text) (left : Value) (x : A)
      → in_folder f segment (folder_node segment nil) ≡ ok (x, left)
      → tally_node p left + w x ≡ d
  unfolding tally_node in_folder
  tally-made f s segment left x h =
      elim (Bool-cases (is_host_mapping (field segment (sequence nil) end))) [
        | inl e ↦ absurd (ground (arith, e))
        | inr e ↦ ground (arith, tally-in_folder f s segment (folder_node segment nil) left x h, e)
      ]

  pub shift-ensure :
      (f : Edit A) → Shifts p w d f → (path : List Text) → Shifts p w d (ensure_folder_nodes f path)
  unfolding ensure_folder_nodes
  shift-ensure f s [] = record { shift = s.shift }
  shift-ensure f s (segment ∷ path) =
      let below : Edit A = λ items. ensure_folder_nodes f path items in
      let s_below : Shifts p w d below = shift-ensure f s path in
      record {
        shift = λ nodes left x h. elim (Bool-cases (is_empty (trim segment))) [
          | inl e ↦ absurd (ground (arith, e))
          | inr e ↦ elim (Option-cases (enter below segment nodes)) [
            | inr (r, n) ↦ tally-enter below s_below segment nodes left x (ground (arith, e, n))
            | inl n ↦
                let (l, m, g) =
                  behind-eq-ok (λ made. push made nodes)
                    (in_folder below segment (folder_node segment nil)) x left
                    (ground (arith, e, n)) in
                ground (arith, tally-made below s_below segment l x m, tally-push p l nodes, g)
          ]
        ];
      }
