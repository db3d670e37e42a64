-- ===== src/Ws/Effects.antt =====
-- What the accesses of a client's turn leave behind: calls of the registry, and what was handed to Redis and
-- to Kafka.
use yappa_core.Common.{
  string_eq, String, ◌≡◌, ◌⊎◌, refl, sym, subst, ap, ◌∙◌, Bool, true, false, Option, none, some,
  List, [], ◌∷◌, ◌++◌, append-nil, append_assoc, arith, Every, Every-append,
}
use yappa_core.Auth.{Identity}
use yappa_core.Protocol.{ServerMessage, Message, text, ping}
use yappa_core.Connection.{ConnectionRegistry, TrySend}
use yappa_core.Connection.Spec.{
  Call, registers, unregisters, joins, leaves, creates, deletes, sends_to_user, sends_to_group,
  apply, run,
}
use yappa_core.Redis.{publish, publish_grp}
use yappa_core.Db.{Database}
use yappa_core.Ws.Persist.{persisted}
use yappa_core.Ws.{Services, World}

-- What the program itself says to a client: a ping, or one of two refusals.
abbrev pub IsNotice : Message → Type 0
IsNotice m =
    (m ≡ ping)
    ⊎ ((m ≡ text "Payload too large")
        ⊎ (m ≡ text "You must join the group before sending messages"))

-- A call that the handling of a client's frames makes: in the client's tenant, with nothing sent but a
-- notice to the client.
abbrev pub IsMine : {S : Type 0} → Identity → Call S Message → Type 0
IsMine i (registers j c s) = ⊥
IsMine i (unregisters j c) = ⊥
IsMine i (joins t g u) = t ≡ i.tenant_id
IsMine i (leaves t g u) = t ≡ i.tenant_id
IsMine i (creates t g) = t ≡ i.tenant_id
IsMine i (deletes t g) = t ≡ i.tenant_id
IsMine i (sends_to_user t u m) = (t ≡ i.tenant_id) × IsNotice m
IsMine i (sends_to_group t g m) = ⊥

abbrev pub AreMine : {S : Type 0} → Identity → List (Call S Message) → Type 0
AreMine i [] = Unit
AreMine i (c ∷ cs) = IsMine i c × AreMine i cs

AreMine-append :
    {S : Type 0} (i : Identity) (cs ds : List (Call S Message))
    → AreMine i cs
    → AreMine i ds
    → AreMine i (cs ++ ds)
AreMine-append i [] ds h k = k
AreMine-append i (c ∷ cs) ds h k = (h.0, AreMine-append i cs ds h.1 k)

run-append :
    {S M : Type 0} (try_send : S → M → TrySend × S) (r : ConnectionRegistry S)
    (cs ds : List (Call S M))
    → run try_send r (cs ++ ds) ≡ run try_send (run try_send r cs) ds
unfolding run
run-append try_send r [] ds = refl
run-append try_send r (c ∷ cs) ds = run-append try_send (apply try_send r c) cs ds

pub publish_grp-payload :
    (sv : Services) (g : String) (m : ServerMessage) (c p : String)
    → publish_grp sv.to_string g m ≡ some (c, p)
    → sv.to_string m ≡ some p
unfolding publish_grp
publish_grp-payload sv g m c p e = ground arith

pub publish-payload :
    (sv : Services) (u : String) (m : ServerMessage) (c p : String)
    → publish sv.to_string u m ≡ some (c, p)
    → sv.to_string m ≡ some p
unfolding publish
publish-payload sv u m c p e = ground arith

module _ (sv : Services) (database : Database) {S : Type 0} (try_send : S → Message → TrySend × S)
    (identity : Identity) where
  abbrev W : Type 0
  W = World sv database try_send

  -- The registry after some calls of the client's own.
  pub record Made (r r' : ConnectionRegistry S) : Type 0 where
    pub calls : List (Call S Message)
    pub ran : r' ≡ run try_send r calls
    pub mine : AreMine identity calls

  pub Made-refl : (r : ConnectionRegistry S) → Made r r
  unfolding run
  Made-refl r = record { calls = []; ran = refl; mine = tt }

  pub Made-apply :
      (r : ConnectionRegistry S) (c : Call S Message)
      → IsMine identity c
      → Made r (apply try_send r c)
  unfolding run
  Made-apply r c h = record { calls = c ∷ []; ran = refl; mine = (h, tt) }

  pub Made-trans : {a b c : ConnectionRegistry S} → Made a b → Made b c → Made a c
  Made-trans {a} x y = record {
    calls = x.calls ++ y.calls;
    ran =
        y.ran
        ∙ ap (λ r. run try_send r y.calls) x.ran
        ∙ sym (run-append try_send a x.calls y.calls);
    mine = AreMine-append identity x.calls y.calls x.mine y.mine;
  }

  -- The payload of a publish is a message of this identity, tenant and sender.
  abbrev pub IsFrom : List (String × String) → Type 0
  IsFrom [] = Unit
  IsFrom ((channel, payload) ∷ commands) =
      ((m : ServerMessage) × (sv.to_string m ≡ some payload)
        × (m.tenant_id ≡ identity.tenant_id)
        × (m.sender_id ≡ identity.user_id))
      × IsFrom commands

  IsFrom-append : (xs ys : List (String × String)) → IsFrom xs → IsFrom ys → IsFrom (xs ++ ys)
  IsFrom-append [] ys h k = k
  IsFrom-append (x ∷ xs) ys h k = (h.0, IsFrom-append xs ys h.1 k)

  -- What was published, and then only messages of this identity.
  pub record Adds (before after : List (String × String)) : Type 0 where
    pub new : List (String × String)
    pub appended : after ≡ before ++ new
    pub authentic : IsFrom new

  pub Adds-none : (before : List (String × String)) → Adds before before
  Adds-none before = record { new = []; appended = sym (append-nil before); authentic = tt }

  Adds-trans : {a b c : List (String × String)} → Adds a b → Adds b c → Adds a c
  Adds-trans {a} x y = record {
    new = x.new ++ y.new;
    appended = y.appended ∙ rw (x.appended) (append_assoc a x.new y.new);
    authentic = IsFrom-append x.new y.new x.authentic y.authentic;
  }

  -- A record for the consumer's topic, with a message of this identity under its channel.
  abbrev pub IsHanded : String × String × String → Type 0
  IsHanded (topic, key, payload) =
      (topic ≡ "messages")
      × (m : ServerMessage) × (sv.to_string m ≡ some payload)
      × (m.channel_id ≡ key)
      × (m.tenant_id ≡ identity.tenant_id)
      × (m.sender_id ≡ identity.user_id)

  -- What was produced, and then only such records.
  pub record Hands (before after : List (String × String × String)) : Type 0 where
    pub new : List (String × String × String)
    pub appended : after ≡ before ++ new
    pub handed : Every IsHanded new

  pub Hands-none :
      (before after : List (String × String × String)) → after ≡ before → Hands before after
  Hands-none before after e = record {
    new = [];
    appended = e ∙ sym (append-nil before);
    handed = tt;
  }

  Hands-trans : {a b c : List (String × String × String)} → Hands a b → Hands b c → Hands a c
  Hands-trans {a} x y = record {
    new = x.new ++ y.new;
    appended = y.appended ∙ rw (x.appended) (append_assoc a x.new y.new);
    handed = Every-append IsHanded x.new y.new x.handed y.handed;
  }

  pub persisted-Hands :
      (w : W) (m : ServerMessage) (kafka : Bool) (o : Option String)
      → w.kafka ≡ kafka
      → sv.to_string m ≡ o
      → m.tenant_id ≡ identity.tenant_id
      → m.sender_id ≡ identity.user_id
      → Hands w.produced (persisted sv database try_send w m).produced
  persisted-Hands w m true none k e t s = rw (k, e) (Hands-none _ _ refl)
  persisted-Hands w m true (some payload) k e t s =
      rw (k, e)
        (record {
          new = ("messages", m.channel_id, payload) ∷ [];
          appended = refl;
          handed = ((refl, m, e, refl, t, s), tt);
        })
  persisted-Hands w m false o k e t s = rw k (Hands-none _ _ refl)

  -- What accesses of the client's own do: calls of its own at the registry, and only messages of its own
  -- to Redis and to Kafka.
  pub record Moved (w w' : W) : Type 0 where
    pub made_by : Made w.registry w'.registry
    pub adds : Adds w.published w'.published
    pub hands : Hands w.produced w'.produced

  pub Moved-trans : {a b c : W} → Moved a b → Moved b c → Moved a c
  Moved-trans x y = record {
    made_by = Made-trans x.made_by y.made_by;
    adds = Adds-trans x.adds y.adds;
    hands = Hands-trans x.hands y.hands;
  }

  pub Moved-elsewhere :
      (w w' : W)
      → w'.registry ≡ w.registry
      → w'.published ≡ w.published
      → w'.produced ≡ w.produced
      → Moved w w'
  Moved-elsewhere w w' r p k = record {
    made_by = subst (Made w.registry) (sym r) (Made-refl w.registry);
    adds = subst (Adds w.published) (sym p) (Adds-none w.published);
    hands = Hands-none w.produced w'.produced k;
  }
