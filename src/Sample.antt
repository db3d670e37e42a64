-- ===== src/Sample.antt =====
-- Small concrete stand-ins for what the program calls and the repository does not implement, for the
-- tests of several parts.
use Prim.Native.String.{len}
use yappa_core.Common.{
  string_eq, nat_eq, ℕ, Uuid, String, Bool, true, false, Option, none, some, List, [], ◌∷◌, ◌++◌,
  ◌==◌, ◌&&◌, ltb, length, if◌then◌else◌,
}
use yappa_core.Auth.{Identity}
use yappa_core.Protocol.{ChannelType, dm, group, leave, ServerMessage, GroupMessage, empty_meta}
use yappa_core.Connection.{TrySend, sent, full}
use yappa_core.Db.{Database}
use yappa_core.Ws.{Services, Draws, WsMessage}

abbrev pub ann : Identity
ann = record { tenant_id = "acme"; user_id = "ann" }

abbrev pub bob : Identity
bob = record { tenant_id = "acme"; user_id = "bob" }

-- A channel of capacity 2, by what is queued in it.
abbrev pub queue_send : {M : Type 0} → List M → M → TrySend × List M
queue_send q m = if ltb (length q) 2 then (sent, q ++ m ∷ []) else (full, q)

-- A database that keeps the contents, in order.
abbrev pub ledger : Database
ledger = record {
  Db = List String;
  DateTime = ℕ;
  from_timestamp = λ z. none;
  default = 0;
  insert_messages = λ c db. some (db ++ c.contents);
}

-- A database that refuses every INSERT.
abbrev pub broken : Database
broken = record {
  Db = List String;
  DateTime = ℕ;
  from_timestamp = λ z. none;
  default = 0;
  insert_messages = λ c db. none;
}

-- Thirty-two numbers that depend on the text's length, and the first of a list of bytes.
abbrev pub toy_digest : String → List ℕ
toy_digest s =
    let n = len s in
    n ∷ 0 ∷ 0 ∷ 0 ∷ 0 ∷ 0 ∷ 0 ∷ 0 ∷ 0 ∷ 0 ∷ 0 ∷ 0 ∷ 0 ∷ 0 ∷ 0 ∷ 0 ∷ 0 ∷ 0 ∷ 0 ∷ 0 ∷ 0 ∷ 0 ∷ 0 ∷ 0
    ∷ 0 ∷ 0 ∷ 0 ∷ 0 ∷ 0 ∷ 0 ∷ 0 ∷ 0 ∷ []

abbrev pub toy_uuid : List ℕ → Option Uuid
toy_uuid [] = none
toy_uuid (n ∷ bytes) = some n

abbrev pub message_from : Identity → ChannelType → String → String → ServerMessage
message_from i ct to said = record {
  msg_type = "chat";
  message_id = 1;
  tenant_id = i.tenant_id;
  channel_type = ct;
  channel_id = to;
  sender_id = i.user_id;
  timestamp = 5;
  conversation_id = 9;
  payload = record { text = said; meta = empty_meta };
}

abbrev pub leave_team : GroupMessage
leave_team = record { msg_type = leave; tenant_id = ""; group_id = "team"; user_id = "" }

abbrev pub to_bob : WsMessage
to_bob = record { channel_type = dm; user_id = "bob"; content = "hi" }

abbrev pub to_team : WsMessage
to_team = record { channel_type = group; user_id = "team"; content = "hello" }

-- Tables that tell who is in which conversation; the group "team" has conversation 7.
abbrev pub services : Services
services = record {
  Tables = Uuid → String → Bool;
  find_group = λ t tenant name. if name == "team" then some 7 else none;
  add_member = λ t c tenant u. some (λ c' u'. if (c == c') && (u == u') then true else t c' u');
  remove_member = λ t c u. some (λ c' u'. if (c == c') && (u == u') then false else t c' u');
  upsert_group = λ t c tenant name owner. some (c, t);
  parse_group = λ s. if s == "leave" then some leave_team else none;
  parse_ws = λ s. if s == "dm" then some to_bob else (if s == "chat" then some to_team else none);
  to_string = λ m. some ((m.payload).text);
  parse_uuid = λ s. none;
  sha256 = toy_digest;
  from_slice = toy_uuid;
}

abbrev pub draws : Draws
draws = record { now = 5; message_uuid = 1; spare_uuid = 100 }
