-- ===== src/Organizations/Scope.antt =====
-- What `listForUser` and `renameOrganization` of apps/api/src/organizations/organizations.service.ts
-- reach.
use fulfill_os.Prelude.{
  ℕ, ◌≡◌, true, String, Option, none, some, List, [], ◌∷◌, ◌==◌, if◌then◌else◌, arith, inl, inr,
  All, Option-cases, Bool-cases,
}
use fulfill_os.Access.{Membership}
use fulfill_os.Organizations.{
  Organization, get_organization, list_for_user, update_name, rename_organization,
}

get_organization-id :
    (i : ℕ) (xs : List Organization) (x : Organization) → get_organization i xs ≡ some x → x.id ≡ i
unfolding get_organization
get_organization-id i [] x h = cc
get_organization-id i (y ∷ xs) x h = ground (arith, get_organization-id i xs x, h)

-- Every entry that a user is shown is a membership of that user, with the organization of the
-- membership.
pub list_for_user_mine :
    (user : ℕ) (organizations : List Organization) (ms : List Membership)
    → All
        (λ e.
          (e.membership.user_id ≡ user)
          × (get_organization e.membership.organization_id organizations ≡ some e.organization)
          × (e.organization.id ≡ e.membership.organization_id))
        (list_for_user user organizations ms)
unfolding list_for_user
list_for_user_mine user organizations [] = tt
list_for_user_mine user organizations (m ∷ ms) =
    let rest = list_for_user_mine user organizations ms in
    elim (Bool-cases (m.user_id == user)) [
      | inr other ↦ rw other rest
      | inl same ↦ elim (Option-cases (get_organization m.organization_id organizations)) [
        | inl gone ↦ rw (same, gone) rest
        | inr (x, found) ↦
            rw (same, found)
              (
                (
                  ground (arith, same),
                  found,
                  get_organization-id m.organization_id organizations x found,
                ),
                rest,
              )
      ]
    ]

-- What a reader is to see of an organization once it has the name `name`, given at `now`.
abbrev pub named_row : String → ℕ → Option Organization → Option Organization
named_row name now none = none
named_row name now (some x) =
    some (record { id = x.id; name = name; created_at = x.created_at; updated_at = now })

get_organization-update_name :
    (i j : ℕ) (name : String) (now : ℕ) (xs : List Organization)
    → get_organization j (update_name i name now xs)
      ≡ (if i == j then named_row name now (get_organization j xs) else get_organization j xs)
unfolding get_organization update_name
get_organization-update_name i j name now [] = ground arith
get_organization-update_name i j name now (x ∷ xs) =
    ground (arith, get_organization-update_name i j name now xs)

-- A renaming answers with the organization's row, where there is one, in which the name is the new
-- one, the time of the change is set, and the id and the time of creation are as before; the row is
-- stored so, and every other organization is left as it was.
pub rename_organization_only :
    (i j : ℕ) (name : String) (now : ℕ) (xs : List Organization)
    → ((rename_organization i name now xs).0 ≡ named_row name now (get_organization i xs))
      × (get_organization j (rename_organization i name now xs).1
          ≡ (if i == j then named_row name now (get_organization j xs) else get_organization j xs))
unfolding rename_organization
rename_organization_only i j name now xs =
    let itself : (i == i) ≡ true = ground arith in
    (
      ground (arith, get_organization-update_name i i name now xs, itself),
      get_organization-update_name i j name now xs,
    )
