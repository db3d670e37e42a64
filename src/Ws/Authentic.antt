-- ===== src/Ws/Authentic.antt =====
-- Who a message that the handler publishes is from.
use yappa_core.Common.{String, ◌≡◌, ◌∙◌, sym, subst, some, some-injective}
use yappa_core.Auth.{Identity}
use yappa_core.Protocol.{Message}
use yappa_core.Connection.{TrySend}
use yappa_core.Db.{Database}
use yappa_core.Ws.{Services, Draws, World, handle_text_message}
use yappa_core.Ws.Effects.{Adds}
use yappa_core.Ws.Program.Moves.{handle_text_message-Performs}

-- Whatever a client sends, the messages that the handler publishes for it carry the tenant and the
-- user of the client's own token, and what was published before stays in front of them.
pub handle_text_message-Adds :
    (sv : Services) (database : Database) {S : Type 0} (try_send : S → Message → TrySend × S)
    (identity : Identity) (content : String) (d : Draws) (w w' : World sv database try_send)
    → handle_text_message sv database try_send content identity d w ≡ some w'
    → Adds sv database try_send identity w.published w'.published
handle_text_message-Adds sv database try_send identity content d w w' e =
    let (end, ran, moved) =
      handle_text_message-Performs sv database try_send identity content d w in
    subst
      (λ (q : World sv database try_send).
        Adds sv database try_send identity w.published q.published)
      (some-injective _ _ (sym ran ∙ e)) moved.adds
