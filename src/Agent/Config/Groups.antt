-- ===== src/Agent/Config/Groups.antt =====
-- The groups of GroupBy.
use heartpost.Common.{
  ◌≡◌, refl, sym, ap, ◌∙◌, inl, inr, Bool, some, List, [], ◌∷◌, ◌++◌, select, Bool-cases,
}
use mathlib.Core.List.{append_assoc, append-nil}
use heartpost.Common.Text.{Text, text_eq, text_eq_iff}
use heartpost.Common.Assoc.{Assoc, lookup, insert, lookup-insert}
use heartpost.Agent.Config.{members, group_from, group_by}

module _ {A : Type 0} (key : A → Text) where
  abbrev pub of_group : Text → A → Bool
  of_group name x = text_eq (key x) name

  group_from-lookup :
      (name : Text) (xs : List A) (groups : Assoc (List A))
      → members (lookup name (group_from key xs groups))
        ≡ members (lookup name groups) ++ select (of_group name) xs
  unfolding group_from
  group_from-lookup name [] groups = sym (append-nil (members (lookup name groups)))
  group_from-lookup name (x ∷ xs) groups =
      let old = members (lookup (key x) groups) in
      let ih = group_from-lookup name xs (insert (key x) (old ++ x ∷ []) groups) in
      let put = lookup-insert (key x) name (old ++ x ∷ []) groups in
      elim (Bool-cases (text_eq (key x) name)) [
        | inl same ↦
            let is : key x ≡ name = (text_eq_iff (key x) name).0 same in
            let found : lookup name (insert (key x) (old ++ x ∷ []) groups) ≡ some (old ++ x ∷ []) =
              put ∙ rw same refl in
            rw (ih, found, same)
              (append_assoc old (x ∷ []) (select (of_group name) xs)
                ∙ ap (λ k. members (lookup k groups) ++ (x ∷ select (of_group name) xs)) is)
        | inr other ↦
            let found : lookup name (insert (key x) (old ++ x ∷ []) groups) ≡ lookup name groups =
              put ∙ rw other refl in
            rw (ih, found, other) refl
      ]

  -- The group of a name holds the values whose key it is, in their order.
  pub group_by-select :
      (name : Text) (xs : List A)
      → members (lookup name (group_by key xs)) ≡ select (of_group name) xs
  unfolding group_by lookup
  group_by-select name xs = group_from-lookup name xs []
