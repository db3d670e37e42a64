-- ===== src/Ws/Tables/Tests.antt =====
-- ann creates the group "chess", and bob joins it on another node.
use yappa_core.Common.{
  string_eq, nat_eq, ==-refl, ◌≡◌, refl, Uuid, String, Bool, true, false, ◌&&◌, ◌||◌, ◌==◌, Option,
  none, some, List, [], if◌then◌else◌, unwrap_or,
}
use yappa_core.Protocol.{GroupMessage, join, create, Message}
use yappa_core.Sample.{ann, bob, queue_send, ledger, services, draws}
use yappa_core.Connection.{empty, is_user_in_group}
use yappa_core.Connection.Spec.{run}
use yappa_core.Connection.Valid.{IsValid, run-empty-IsValid}
use yappa_core.Ws.{Services, World, handle_text_message, handle_group, handle_join, handle_create}
use yappa_core.Ws.Tables.{AreDocumented, handle_text_message-create-join}
use yappa_core.Redis.{publish_grp}

-- The groups by tenant and name, and the rows of the members.
record Shared : Type 0 where
  named : String → String → Option Uuid
  member : Uuid → String → Bool

abbrev chess : GroupMessage
chess = record { msg_type = create; group_id = "chess"; tenant_id = "acme"; user_id = "ann" }

abbrev put : Shared → Uuid → String → String → Option Uuid → Option (Uuid × Shared)
put t c tenant name (some taken) = none
put t c tenant name none = some (
  c,
  record t {
    named = λ tenant' name'.
        if (tenant == tenant') && (name == name') then some c else t.named tenant' name';
  },
)

abbrev shared : Services
shared = record {
  Tables = Shared;
  find_group = λ t tenant name. t.named tenant name;
  add_member = λ t c tenant u.
      some (record t { member = λ c' u'. (c == c') && (u == u') || t.member c' u' });
  remove_member = λ t c u. none;
  upsert_group = λ t c tenant name u. put t c tenant name (t.named tenant name);
  parse_group = λ s. if s == "create" then some chess else some (record chess { msg_type = join });
  parse_ws = λ s. none;
  to_string = λ m. some ((m.payload).text);
  parse_uuid = λ s. none;
  sha256 = services.sha256;
  from_slice = services.from_slice;
}

abbrev is_member : Shared → Uuid → String → Bool
is_member t c u = t.member c u

shared-AreDocumented : AreDocumented shared is_member
shared-AreDocumented = record {
  add_lem = λ t tenant name u c found.
      (_, refl, record { members = λ c' u'. refl; groups = λ tenant' name'. refl });
  upsert_new_lem = λ t tenant name u c none_yet fresh. (
    record t {
      named = λ tenant' name'.
          if (tenant == tenant') && (name == name') then some c else t.named tenant' name';
    },
    rw none_yet refl,
    record {
      members = λ c' u'. refl;
      named = rw (==-refl tenant, ==-refl name) refl;
      groups = λ tenant' name' other. rw other refl;
    },
  );
}

abbrev world : World shared ledger queue_send
world = record {
  registry = empty;
  tables = record { named = λ tenant name. none; member = λ c u. false };
  messages = [];
  kafka = false;
  published = [];
  produced = [];
}

empty-IsValid : IsValid {S = List Message} empty
unfolding run
empty-IsValid = run-empty-IsValid queue_send []

made : World shared ledger queue_send
unfolding handle_text_message handle_group handle_create publish_grp
made = unwrap_or (handle_text_message shared ledger queue_send "create" ann draws world) world

joined : World shared ledger queue_send
unfolding made handle_text_message handle_group handle_join publish_grp
joined =
    unwrap_or
      (handle_text_message shared ledger queue_send "join" bob draws
        (record made { registry = empty }))
      world

handle_text_message-create-join_example :
    ((joined.tables).named "acme" "chess" ≡ some 100)
    × ((c : Uuid) (u : String)
        → (joined.tables).member c u ≡ ((100 == c) && (("bob" == u) || ("ann" == u)) || false))
    × (is_user_in_group made.registry "acme" "chess" "ann" ≡ true)
    × (is_user_in_group joined.registry "acme" "chess" "bob" ≡ true)
unfolding made joined handle_text_message handle_group handle_create handle_join publish_grp
handle_text_message-create-join_example =
    handle_text_message-create-join shared is_member shared-AreDocumented ledger queue_send ann bob
      "create" "join" chess (record chess { msg_type = join }) draws draws world made joined empty
      refl refl refl refl refl refl refl (λ tenant name h. cc) empty-IsValid empty-IsValid refl refl
