-- ===== src/Auth/Tiers.antt =====
-- How the roles of backend/app/auth/permissions.py compare.
use lunatic92i.Common.{
  ◌≡◌, refl, sym, ◌∙◌, inl, inr, Bool, true, false, List, [], ◌∷◌, arith, ==_iff, any, all,
  any-append, Bool-cases,
}
use lunatic92i.Auth.Permissions.{
  Resource, Action, Role, super_admin, org_admin, soc_manager, soc_analyst_l1, soc_analyst_l2,
  soc_analyst_l3, threat_hunter, dfir_analyst, auditor, read_only, playbook, approve,
  resource_number, action_number, pair_eq, permission_catalog, role_permissions, has_permission,
  load_permissions,
}

-- Every permission of one list is in another.
abbrev pub is_within : List (Resource × Action) → List (Resource × Action) → Bool
is_within xs ys = all (has_permission ys) xs

-- Equal pairs are in the same lists.
has_permission-same :
    (q x : Resource × Action) (ys : List (Resource × Action))
    → pair_eq q x ≡ true
    → has_permission ys q ≡ has_permission ys x
unfolding has_permission any
has_permission-same q x [] h = refl
has_permission-same (r, a) (s, b) ((t, c) ∷ ys) h =
    let at_r = (==_iff (resource_number r) (resource_number s)).0 (ground (arith, h)) in
    let at_a = (==_iff (action_number a) (action_number b)).0 (ground (arith, h)) in
    rw (at_r, at_a, has_permission-same (r, a) (s, b) ys h) refl

within-has_permission :
    (q : Resource × Action) (xs ys : List (Resource × Action))
    → is_within xs ys ≡ true
    → has_permission xs q ≡ true
    → has_permission ys q ≡ true
unfolding has_permission any all
within-has_permission q [] ys h k = absurd (ground arith)
within-has_permission q (x ∷ xs) ys h k = elim (Bool-cases (has_permission ys x)) [
  | inr out ↦ absurd (ground arith)
  | inl there ↦ elim (Bool-cases (pair_eq q x)) [
    | inl same ↦ has_permission-same q x ys same ∙ there
    | inr other ↦ within-has_permission q xs ys (rw there at h) (rw other at k)
  ]
]

roles_within : (role : Role) → is_within (role_permissions role) permission_catalog ≡ true
unfolding all has_permission any
roles_within super_admin = refl
roles_within org_admin = refl
roles_within soc_manager = refl
roles_within soc_analyst_l1 = refl
roles_within soc_analyst_l2 = refl
roles_within soc_analyst_l3 = refl
roles_within threat_hunter = refl
roles_within dfir_analyst = refl
roles_within auditor = refl
roles_within read_only = refl

-- The analysts' tiers.
unfoldable pub is_next : Role → Role → Bool
is_next soc_analyst_l1 soc_analyst_l2 = true
is_next soc_analyst_l2 soc_analyst_l3 = true
is_next _ _ = false

tier_within :
    (lower higher : Role)
    → is_next lower higher ≡ true
    → is_within (role_permissions lower) (role_permissions higher) ≡ true
unfolding is_next all has_permission any
tier_within soc_analyst_l1 soc_analyst_l2 h = refl
tier_within soc_analyst_l2 soc_analyst_l3 h = refl
tier_within _ _ h = absurd (ground arith)

-- What an analyst of the first tier may do, one of the second may, and what one of the second may do, one of
-- the third may.
pub higher_tier :
    (lower higher : Role) (wanted : Resource × Action)
    → is_next lower higher ≡ true
    → has_permission (role_permissions lower) wanted ≡ true
    → has_permission (role_permissions higher) wanted ≡ true
higher_tier lower higher wanted h k =
    within-has_permission wanted (role_permissions lower) (role_permissions higher)
      (tier_within lower higher h) k

unfoldable pub is_manager : Role → Bool
is_manager super_admin = true
is_manager org_admin = true
is_manager soc_manager = true
is_manager _ = false

-- A caller may decide on a destructive step of a playbook exactly if one of the roles is that of an
-- administrator or of the manager.
pub load_permissions-approve :
    (roles : List Role)
    → has_permission (load_permissions roles) (playbook, approve) ≡ any is_manager roles
unfolding load_permissions has_permission any is_manager
load_permissions-approve [] = refl
load_permissions-approve (super_admin ∷ roles) = refl
load_permissions-approve (org_admin ∷ roles) = refl
load_permissions-approve (soc_manager ∷ roles) = refl
load_permissions-approve (soc_analyst_l1 ∷ roles) = load_permissions-approve roles
load_permissions-approve (soc_analyst_l2 ∷ roles) = load_permissions-approve roles
load_permissions-approve (soc_analyst_l3 ∷ roles) = load_permissions-approve roles
load_permissions-approve (threat_hunter ∷ roles) = load_permissions-approve roles
load_permissions-approve (dfir_analyst ∷ roles) = load_permissions-approve roles
load_permissions-approve (auditor ∷ roles) = load_permissions-approve roles
load_permissions-approve (read_only ∷ roles) = load_permissions-approve roles

-- Whatever roles a caller has, a permission that the check accepts is one of the catalog.
pub load_permissions_lem :
    (wanted : Resource × Action) (roles : List Role)
    → has_permission (load_permissions roles) wanted ≡ true
    → has_permission permission_catalog wanted ≡ true
unfolding load_permissions has_permission any
load_permissions_lem wanted [] h = absurd (ground arith)
load_permissions_lem wanted (role ∷ roles) h =
    elim (Bool-cases (has_permission (role_permissions role) wanted)) [
      | inl t ↦
          within-has_permission wanted (role_permissions role) permission_catalog
            (roles_within role) t
      | inr t ↦ load_permissions_lem wanted roles (
          sym (
            any-append (pair_eq wanted) (role_permissions role) (load_permissions roles)
            ∙ rw t refl)
          ∙ h)
    ]
