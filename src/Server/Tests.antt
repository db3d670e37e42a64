-- ===== src/Server/Tests.antt =====
-- Small tables.
use yappa_core.Common.{
  string_eq, ◌==◌, ℤ, pos, negsuc, ℕ, String, Bool, true, false, ◌&&◌, Option, none, some, List, [],
  ◌∷◌, ◌≡◌, refl, take, length, Any,
}
use yappa_core.Server.{internal_server_error}
use yappa_core.Server.History.{ChannelPath, MessageRow, FetchAll, HistoryQuery, get_channel_history}
use yappa_core.Server.Bounds.{IsOf}
use yappa_core.Server.Groups.{get_tenant_groups}

abbrev bob : ChannelPath
bob = record { tenant_id = "acme"; channel_type = "Dm"; channel_id = "bob" }

abbrev row : String → ℕ → MessageRow
row message_id timestamp = record {
  message_id = message_id;
  channel_type = "Dm";
  channel_id = "bob";
  sender_id = "ann";
  text = "hi";
  timestamp = pos timestamp;
  conversation_id = "7";
}

-- A table with two messages of one channel, and one of another tenant in between.
abbrev stored : List (String × MessageRow)
stored = ("acme", row "2" 20) ∷ ("other", row "3" 15) ∷ ("acme", row "1" 10) ∷ []

abbrev is_of : ChannelPath → String → MessageRow → Bool
is_of path t r =
    t == path.tenant_id && (r.channel_type == path.channel_type && r.channel_id == path.channel_id)

abbrev keep : Bool → MessageRow → List MessageRow → List MessageRow
keep true r rows = r ∷ rows
keep false r rows = rows

-- The rows of a tenant's channel; the table above has them newest first.
abbrev selected : ChannelPath → List (String × MessageRow) → List MessageRow
selected path [] = []
selected path ((t, r) ∷ rows) = keep (is_of path t r) r (selected path rows)

abbrev fetch_rows : ChannelPath → ℤ → Option (List MessageRow)
fetch_rows path (negsuc n) = none
fetch_rows path (pos n) = some (take n (selected path stored))

abbrev fetch_all : FetchAll
fetch_all sql tenant_id channel_type channel_id limit =
    fetch_rows
      (record { tenant_id = tenant_id; channel_type = channel_type; channel_id = channel_id }) limit

abbrev AnyTime : String → MessageRow → Type 0
AnyTime b r = Unit

abbrev IsIn : String × MessageRow → List (String × MessageRow) → Type 0
IsIn x rows = Any (λ y. y ≡ x) rows

module _ (path : ChannelPath) where
  abbrev Of : MessageRow → Type 0
  Of = IsOf stored AnyTime path none

abbrev one : HistoryQuery
one = record { before = none; limit = some (pos 1) }

get_channel_history-one : length ((get_channel_history fetch_all bob one).body) ≡ 1
unfolding get_channel_history
get_channel_history-one = refl

-- A tenant with one group, and an error.
get_tenant_groups-one :
    length (
      (get_tenant_groups
        (λ sql t. some (
          record {
            conversation_id = "7";
            name = "g";
            created_by = "ann";
            created_at = pos 5;
            member_count = pos 1;
          }
          ∷ []))
        (record { tenant_id = "acme" })).body)
    ≡ 1
unfolding get_tenant_groups
get_tenant_groups-one = refl

get_tenant_groups-error :
    (get_tenant_groups (λ sql t. none) (record { tenant_id = "acme" })).status
    ≡ internal_server_error
unfolding get_tenant_groups
get_tenant_groups-error = refl
