-- ===== src/Infrastructure/Instances.antt =====
-- The table of instances: the struct Instance of domain/infrastructure/model.go without created_at
-- and updated_at, the statements of repository/instances.sql.go, and what the repository converts
-- on the way. The list of all instances is in the order of the table, not by created_at.
use vps_billing_gemini.Prelude.{
  ℕ, ◌+◌, Bool, true, false, List, Option, none, some, String, if◌then◌else◌, ◌==◌, filter,
}
use vps_billing_gemini.Prelude.Int.{ℤ, int32}
use vps_billing_gemini.Prelude.Table.{find_by, update_by, insert_row}

pub record Instance : Type 0 where
  pub id : ℕ
  pub subscription_id : ℕ
  pub node_id : Option ℕ
  pub provider_id : Option ℕ
  pub provider_instance_id : Option String
  pub name : String
  pub desired_state : String
  pub observed_state : String
  pub cpu_cores : ℤ
  pub memory_mb : ℤ
  pub disk_gb : ℤ
  pub traffic_limit_gb : Option ℤ
  pub bandwidth_mbps : Option ℤ
  pub image_id : Option String
  pub primary_ipv4 : Option String
  pub primary_ipv6 : Option String
  pub last_synced_at : Option ℕ
  pub version : ℕ
  pub deleted_at : Option ℕ

-- toPgUUIDPtr: the nil UUID is NULL.
abbrev pub unless_nil : Option ℕ → Option ℕ
unless_nil none = none
unless_nil (some id) = if id == 0 then none else some id

-- The row of an INSERT. `parse` is netip.ParseAddr followed by String, none for no address.
abbrev pub instance_row : (String → Option String) → Instance → Instance
instance_row parse inst = record inst {
  node_id = unless_nil inst.node_id;
  provider_id = unless_nil inst.provider_id;
  memory_mb = int32 inst.memory_mb;
  disk_gb = int32 inst.disk_gb;
  primary_ipv4 = elim inst.primary_ipv4 [ none ↦ none | some ip ↦ parse ip ];
  primary_ipv6 = elim inst.primary_ipv6 [ none ↦ none | some ip ↦ parse ip ];
  last_synced_at = none;
  version = 1;
  deleted_at = none;
}

unfoldable pub create_instance :
    (String → Option String) → Instance → List Instance → Option (List Instance)
create_instance parse inst rows = insert_row Instance.id (instance_row parse inst) rows

abbrev pub is_live : Instance → Bool
is_live inst = elim inst.deleted_at [ none ↦ true | some _ ↦ false ]

-- WHERE id = $1 AND deleted_at IS NULL.
unfoldable pub get_instance_by_id : ℕ → List Instance → Option Instance
get_instance_by_id id rows = elim (find_by Instance.id id rows) [
  | none ↦ none
  | some inst ↦ if is_live inst then some inst else none
]

unfoldable pub list_instances : List Instance → List Instance
list_instances = filter is_live

abbrev pub set_states : ℕ → String → String → Option String → Instance → Instance
set_states now desired observed provider_instance_id inst = record inst {
  desired_state = desired;
  observed_state = observed;
  provider_instance_id = elim provider_instance_id [
    | none ↦ inst.provider_instance_id
    | some text ↦ some text
  ];
  last_synced_at = some now;
  version = inst.version + 1;
}

-- An UPDATE of a missing row is no error.
unfoldable pub update_instance_states :
    ℕ → ℕ → String → String → Option String → List Instance → List Instance
update_instance_states now id desired observed provider_instance_id =
    update_by Instance.id id (set_states now desired observed provider_instance_id)
