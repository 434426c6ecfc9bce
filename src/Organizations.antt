-- ===== src/Organizations.antt =====
-- apps/api/src/organizations/organizations.service.ts on the tables `organizations` and
-- `memberships`. `getMembership` stands with the guards.
pub mod Scope
use fulfill_os.Prelude.{ℕ, String, Option, none, some, List, [], ◌∷◌, ◌==◌, if◌then◌else◌}
use fulfill_os.Access.{Membership}

pub record Organization : Type 0 where
  pub id : ℕ
  pub name : String
  pub created_at : ℕ
  pub updated_at : ℕ

pub record MembershipWithOrganization : Type 0 where
  pub membership : Membership
  pub organization : Organization

unfoldable pub get_organization : ℕ → List Organization → Option Organization
get_organization i [] = none
get_organization i (x ∷ xs) = if x.id == i then some x else get_organization i xs

-- The inner join on the organization, of the memberships of the user.
unfoldable pub list_for_user :
    ℕ → List Organization → List Membership → List MembershipWithOrganization
unfolding get_organization
list_for_user user organizations [] = []
list_for_user user organizations (m ∷ ms) =
    let rest = list_for_user user organizations ms in
    if m.user_id == user
    then elim (get_organization m.organization_id organizations) [
      | none ↦ rest
      | some x ↦ record { membership = m; organization = x } ∷ rest
    ]
    else rest

abbrev pub renamed : String → ℕ → Organization → Organization
renamed name now x = record x { name = name; updated_at = now }

update_name : ℕ → String → ℕ → List Organization → List Organization
update_name i name now [] = []
update_name i name now (x ∷ xs) =
    (if x.id == i then renamed name now x else x) ∷ update_name i name now xs

-- The first returned row; `undefined` where there is none.
pub rename_organization :
    ℕ → String → ℕ → List Organization → Option Organization × List Organization
unfolding get_organization update_name
rename_organization i name now organizations =
    let after = update_name i name now organizations in (get_organization i after, after)
