-- ===== src/Auth/Permissions.antt =====
-- backend/app/auth/permissions.py: the catalog of permissions and the matrix of roles. The names of resources
-- and actions are one constructor each.
use lunatic92i.Common.{ℕ, Bool, ◌&&◌, List, [], ◌∷◌, ◌++◌, map, ◌==◌, any}

pub data Resource : Type 0 where
  user organization asset event alert incident ioc rule hunt mitre playbook audit api_key : Resource

pub data Action : Type 0 where
  read write delete execute approve close : Action

-- `ROLE_NAMES`
pub data Role : Type 0 where
  super_admin org_admin soc_manager soc_analyst_l1 soc_analyst_l2 soc_analyst_l3 threat_hunter
        dfir_analyst :
      Role
  auditor read_only : Role

abbrev pub resource_number : Resource → ℕ
resource_number user = 0
resource_number organization = 1
resource_number asset = 2
resource_number event = 3
resource_number alert = 4
resource_number incident = 5
resource_number ioc = 6
resource_number rule = 7
resource_number hunt = 8
resource_number mitre = 9
resource_number playbook = 10
resource_number audit = 11
resource_number api_key = 12

abbrev pub action_number : Action → ℕ
action_number read = 0
action_number write = 1
action_number delete = 2
action_number execute = 3
action_number approve = 4
action_number close = 5

-- `(resource, action) == (resource, action)`
abbrev pub pair_eq : Resource × Action → Resource × Action → Bool
pair_eq (r, a) (s, b) =
    (resource_number r == resource_number s) && (action_number a == action_number b)

abbrev pub Grants : Type 0
Grants = List (Resource × List Action)

-- `_only`
abbrev pub only : Grants → List (Resource × Action)
only [] = []
only ((r, actions) ∷ more) = map (λ a. (r, a)) actions ++ only more

-- `_RESOURCE_ACTIONS`
abbrev pub resource_actions : Grants
resource_actions =
    (user, read ∷ write ∷ delete ∷ [])
    ∷ (organization, read ∷ write ∷ [])
    ∷ (asset, read ∷ write ∷ delete ∷ [])
    ∷ (event, read ∷ [])
    ∷ (alert, read ∷ write ∷ close ∷ [])
    ∷ (incident, read ∷ write ∷ delete ∷ [])
    ∷ (ioc, read ∷ write ∷ delete ∷ [])
    ∷ (rule, read ∷ write ∷ delete ∷ execute ∷ [])
    ∷ (hunt, read ∷ write ∷ execute ∷ [])
    ∷ (mitre, read ∷ write ∷ [])
    ∷ (playbook, read ∷ write ∷ execute ∷ approve ∷ [])
    ∷ (audit, read ∷ [])
    ∷ (api_key, read ∷ write ∷ delete ∷ [])
    ∷ []

-- `PERMISSION_CATALOG`
abbrev pub permission_catalog : List (Resource × Action)
permission_catalog = only resource_actions

abbrev pub grants_of : Role → Grants
grants_of super_admin = resource_actions
grants_of org_admin = resource_actions
grants_of soc_manager =
    (user, read ∷ write ∷ [])
    ∷ (asset, read ∷ write ∷ delete ∷ [])
    ∷ (alert, read ∷ write ∷ close ∷ [])
    ∷ (incident, read ∷ write ∷ delete ∷ [])
    ∷ (ioc, read ∷ write ∷ delete ∷ [])
    ∷ (rule, read ∷ write ∷ delete ∷ execute ∷ [])
    ∷ (hunt, read ∷ write ∷ execute ∷ [])
    ∷ (mitre, read ∷ write ∷ [])
    ∷ (playbook, read ∷ write ∷ execute ∷ approve ∷ [])
    ∷ (audit, read ∷ [])
    ∷ (organization, read ∷ [])
    ∷ (api_key, read ∷ write ∷ delete ∷ [])
    ∷ []
grants_of soc_analyst_l1 =
    (asset, read ∷ [])
    ∷ (alert, read ∷ write ∷ [])
    ∷ (incident, read ∷ write ∷ [])
    ∷ (ioc, read ∷ [])
    ∷ (event, read ∷ [])
    ∷ (mitre, read ∷ [])
    ∷ (hunt, read ∷ execute ∷ [])
    ∷ []
grants_of soc_analyst_l2 =
    (asset, read ∷ [])
    ∷ (alert, read ∷ write ∷ close ∷ [])
    ∷ (incident, read ∷ write ∷ [])
    ∷ (ioc, read ∷ write ∷ [])
    ∷ (event, read ∷ [])
    ∷ (mitre, read ∷ [])
    ∷ (rule, read ∷ execute ∷ [])
    ∷ (hunt, read ∷ write ∷ execute ∷ [])
    ∷ (playbook, read ∷ execute ∷ [])
    ∷ []
grants_of soc_analyst_l3 =
    (asset, read ∷ write ∷ [])
    ∷ (alert, read ∷ write ∷ close ∷ [])
    ∷ (incident, read ∷ write ∷ delete ∷ [])
    ∷ (ioc, read ∷ write ∷ delete ∷ [])
    ∷ (event, read ∷ [])
    ∷ (mitre, read ∷ [])
    ∷ (rule, read ∷ write ∷ execute ∷ [])
    ∷ (hunt, read ∷ write ∷ execute ∷ [])
    ∷ (playbook, read ∷ write ∷ execute ∷ [])
    ∷ []
grants_of threat_hunter =
    (asset, read ∷ [])
    ∷ (alert, read ∷ [])
    ∷ (incident, read ∷ [])
    ∷ (ioc, read ∷ write ∷ [])
    ∷ (event, read ∷ [])
    ∷ (mitre, read ∷ [])
    ∷ (hunt, read ∷ write ∷ execute ∷ [])
    ∷ []
grants_of dfir_analyst =
    (asset, read ∷ write ∷ [])
    ∷ (alert, read ∷ [])
    ∷ (incident, read ∷ write ∷ [])
    ∷ (ioc, read ∷ write ∷ [])
    ∷ (event, read ∷ [])
    ∷ (mitre, read ∷ [])
    ∷ (hunt, read ∷ execute ∷ [])
    ∷ (playbook, read ∷ execute ∷ [])
    ∷ (audit, read ∷ [])
    ∷ []
grants_of auditor =
    (user, read ∷ [])
    ∷ (organization, read ∷ [])
    ∷ (asset, read ∷ [])
    ∷ (alert, read ∷ [])
    ∷ (incident, read ∷ [])
    ∷ (ioc, read ∷ [])
    ∷ (rule, read ∷ [])
    ∷ (playbook, read ∷ [])
    ∷ (audit, read ∷ [])
    ∷ (mitre, read ∷ [])
    ∷ (api_key, read ∷ [])
    ∷ []
grants_of read_only =
    (asset, read ∷ [])
    ∷ (alert, read ∷ [])
    ∷ (incident, read ∷ [])
    ∷ (ioc, read ∷ [])
    ∷ (event, read ∷ [])
    ∷ (rule, read ∷ [])
    ∷ (mitre, read ∷ [])
    ∷ (hunt, read ∷ [])
    ∷ (playbook, read ∷ [])
    ∷ []

-- `ROLE_PERMISSIONS`
abbrev pub role_permissions : Role → List (Resource × Action)
role_permissions role = only (grants_of role)

-- `(resource, action) in permissions`
unfoldable pub has_permission : List (Resource × Action) → Resource × Action → Bool
unfolding any
has_permission permissions wanted = any (pair_eq wanted) permissions

-- The permissions of all roles of a caller, as `_load_permissions` joins them.
unfoldable pub load_permissions : List Role → List (Resource × Action)
load_permissions [] = []
load_permissions (role ∷ roles) = role_permissions role ++ load_permissions roles
