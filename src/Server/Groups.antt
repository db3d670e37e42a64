-- ===== src/Server/Groups.antt =====
-- src/server/groups.rs: the groups of a tenant.
use yappa_core.Common.{ℕ, ℤ, String, Option, none, some, List, [], map}
use yappa_core.Server.{ok, internal_server_error, Answer, as_u64}

pub record TenantPath : Type 0 where
  pub tenant_id : String

pub record GroupRow : Type 0 where
  pub conversation_id : String
  pub name : String
  pub created_by : String
  pub created_at : ℤ
  pub member_count : ℤ

pub record GroupResponse : Type 0 where
  pub conversation_id : String
  pub name : String
  pub created_by : String
  pub created_at : ℕ
  pub member_count : ℤ

abbrev pub groups_sql : String
groups_sql =
    "\n        SELECT g.conversation_id::text, g.name, g.created_by,\n               EXTRACT(EPOCH FROM g.created_at)::bigint as created_at,\n               COUNT(gm.user_id) as member_count\n        FROM groups g\n        LEFT JOIN group_members gm ON g.conversation_id = gm.conversation_id\n        WHERE g.tenant_id = $1\n        GROUP BY g.conversation_id, g.name, g.created_by, g.created_at\n        ORDER BY g.created_at DESC\n        "

abbrev pub response : GroupRow → GroupResponse
response g = record {
  conversation_id = g.conversation_id;
  name = g.name;
  created_by = g.created_by;
  created_at = as_u64 g.created_at;
  member_count = g.member_count;
}

unfoldable pub get_tenant_groups :
    (String → String → Option (List GroupRow)) → TenantPath → Answer GroupResponse
get_tenant_groups fetch_all path = elim (fetch_all groups_sql path.tenant_id) [
  | none ↦ record { status = internal_server_error; body = [] }
  | some groups ↦ record { status = ok; body = map response groups }
]
