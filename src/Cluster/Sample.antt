-- ===== src/Cluster/Sample.antt =====
-- One node whose clients can write one message, with one valid token.
use yappa_core.Common.{
  both_of_&&, nat_eq, string_eq, String, ◌≡◌, inl, inr, refl, sym, ap, Bool, true, false, ◌&&◌,
  Option, none, some, List, [], ◌==◌, if◌then◌else◌, Bool-cases, eq_of_==, arith,
}
use yappa_core.Auth.{Claims}
use yappa_core.Protocol.{ChannelType, dm, group, community, ServerMessage, Message}
use yappa_core.Sample.{queue_send, ledger, services}
use yappa_core.Connection.{empty}
use yappa_core.Connection.Contents.{queue_after}
use yappa_core.Limits.Sample.{server, nothing}
use yappa_core.Cluster.{Environment, Cluster}

-- The one message that can be written, as "hello".
abbrev pub hello : ServerMessage
hello = record {
  msg_type = "chat";
  message_id = 1;
  tenant_id = "acme";
  channel_type = dm;
  channel_id = "ann";
  sender_id = "ann";
  timestamp = 5;
  conversation_id = 7;
  payload = record { text = "hi"; meta = "{}" };
}

abbrev is_dm : ChannelType → Bool
is_dm dm = true
is_dm group = false
is_dm community = false

abbrev is_hello : ServerMessage → Bool
is_hello m =
    m.msg_type == "chat"
    && (m.message_id == 1
        && (m.tenant_id == "acme"
            && (is_dm m.channel_type
                && (m.channel_id == "ann"
                    && (m.sender_id == "ann"
                        && (m.timestamp == 5
                            && (m.conversation_id == 7
                                && ((m.payload).text == "hi" && (m.payload).meta == "{}"))))))))

abbrev pub write : ServerMessage → Option String
write m = if is_hello m then some "hello" else none

dm-is : (ct : ChannelType) → is_dm ct ≡ true → ct ≡ dm
dm-is dm h = refl
dm-is group h = cc
dm-is community h = cc

is_hello-hello : (m : ServerMessage) → is_hello m ≡ true → m ≡ hello
is_hello-hello m h =
    let (a, h₁) = both_of_&& (m.msg_type == "chat") _ h in
    let (b, h₂) = both_of_&& (m.message_id == 1) _ h₁ in
    let (c, h₃) = both_of_&& (m.tenant_id == "acme") _ h₂ in
    let (d, h₄) = both_of_&& (is_dm m.channel_type) _ h₃ in
    let (e, h₅) = both_of_&& (m.channel_id == "ann") _ h₄ in
    let (f, h₆) = both_of_&& (m.sender_id == "ann") _ h₅ in
    let (g, h₇) = both_of_&& (m.timestamp == 5) _ h₆ in
    let (k, h₈) = both_of_&& (m.conversation_id == 7) _ h₇ in
    let (l, n) = both_of_&& ((m.payload).text == "hi") _ h₈ in
    λ j. record {
      msg_type = eq_of_== m.msg_type "chat" a j;
      message_id = eq_of_== m.message_id 1 b j;
      tenant_id = eq_of_== m.tenant_id "acme" c j;
      channel_type = dm-is m.channel_type d j;
      channel_id = eq_of_== m.channel_id "ann" e j;
      sender_id = eq_of_== m.sender_id "ann" f j;
      timestamp = eq_of_== m.timestamp 5 g j;
      conversation_id = eq_of_== m.conversation_id 7 k j;
      payload = record {
        text = eq_of_== (m.payload).text "hi" l j;
        meta = eq_of_== (m.payload).meta "{}" n j;
      };
    }

pub read_back : (m : ServerMessage) (p : String) → write m ≡ some p → some hello ≡ some m
read_back m p h = elim (Bool-cases (is_hello m)) [
  | inl e ↦ ap some (sym (is_hello-hello m e))
  | inr e ↦ absurd (let h' : none ≡ some p = rw e at h in cc)
]

abbrev decode : String → Option Claims
decode t =
    if t == "ann1"
    then some (record { tenant_id = "acme"; user_id = "ann"; exp = 9; iss = none; aud = none })
    else none

pub queue_send-queue :
    (q : List Message) (m : Message) → (queue_send q m).1 ≡ queue_after (queue_send q m).0 q m
queue_send-queue q m = ground arith

abbrev pub env : Environment
env = record {
  sv = record services {
    to_string = write;
    parse_ws = λ s. some (record { channel_type = dm; user_id = "ann"; content = "hi" });
  };
  database = ledger;
  redis = server;
  S = List Message;
  try_send = queue_send;
  queued = λ q. q;
  queued_lem = queue_send-queue;
  decode = decode;
  from_str = λ p. some hello;
  from_str_lem = read_back;
}

abbrev pub quiet : Cluster env 1
quiet = record {
  nodes = λ n. empty;
  tables = λ c u. false;
  messages = [];
  kafka = λ n. false;
  published = [];
  produced = [];
  store = nothing;
  sockets = [];
}
