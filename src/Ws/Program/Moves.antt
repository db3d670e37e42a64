-- ===== src/Ws/Program/Moves.antt =====
-- What a client's turn leaves behind, step by step and as a whole.
use yappa_core.Common.{
  string_eq, ℕ, Uuid, String, ◌≡◌, refl, sym, subst, Option, none, some, [], ◌∷◌, ◌++◌,
  Option-cases, inl, inr,
}
use yappa_core.Auth.{Identity}
use yappa_core.Protocol.{Message}
use yappa_core.Connection.{TrySend}
use yappa_core.Connection.Spec.{apply}
use yappa_core.Db.{Database}
use yappa_core.Ws.Persist.{persisted, persist_message_lem, registry-persisted, published-persisted}
use yappa_core.Ws.Effects.{
  Made-refl, Made-apply, Made, Adds, Adds-none, Hands-none, persisted-Hands, Moved, Moved-trans,
  Moved-elsewhere,
}
use yappa_core.Ws.{Services, Draws, World, handle_text_message}
use yappa_core.Ws.Socket.{SocketEvent, handle_event}
use yappa_core.Ws.Program.{
  Act, calls, adds_member, removes_member, commands, persists, Program, done, performs, finds,
  upserts, asks, text_program, turn_program, Outcome, answered, failed, lost, attempt, upserted,
  perform, resume, finish,
}
use yappa_core.Ws.Program.Own.{
  IsOwnAct, IsOwn, IsOwnTurn, text_program-IsOwn, turn_program-IsOwnTurn,
}
use yappa_core.Ws.Program.Same.{finish-text_program, finish_turn, finish-turn_program}

module _ (sv : Services) (database : Database) {S : Type 0} (try_send : S → Message → TrySend × S)
    (i : Identity) where
  abbrev W : Type 0
  W = World sv database try_send

  abbrev pub Performs : W → Option W → Type 0
  Performs w o = (w' : W) × (o ≡ some w') × Moved sv database try_send i w w'

  still : (w : W) → Performs w (some w)
  still w = (w, refl, Moved-elsewhere sv database try_send i w w refl refl refl)

  perform-Performs :
      (a : Act S) (w : W) → IsOwnAct sv i a → Performs w (perform sv database try_send a w)
  unfolding perform
  perform-Performs (calls c) w own = (
    record w { registry = apply try_send w.registry c },
    refl,
    record {
      made_by = Made-apply sv database try_send i w.registry c own;
      adds = Adds-none sv database try_send i w.published;
      hands = Hands-none sv database try_send i w.produced w.produced refl;
    },
  )
  perform-Performs (adds_member c t u) w own =
      (_, refl, Moved-elsewhere sv database try_send i w _ refl refl refl)
  perform-Performs (removes_member c u) w own =
      (_, refl, Moved-elsewhere sv database try_send i w _ refl refl refl)
  perform-Performs (commands none) w own = still w
  perform-Performs (commands (some (c, p))) w own = (
    record w { published = w.published ++ (c, p) ∷ [] },
    refl,
    record {
      made_by = Made-refl sv database try_send i w.registry;
      adds = record { new = (c, p) ∷ []; appended = refl; authentic = (own c p refl, tt) };
      hands = Hands-none sv database try_send i w.produced w.produced refl;
    },
  )
  perform-Performs (persists m) w own = (
    persisted sv database try_send w m,
    persist_message_lem sv database try_send w m,
    record {
      made_by =
          subst (Made sv database try_send i w.registry)
            (sym (registry-persisted sv database try_send w m))
            (Made-refl sv database try_send i w.registry);
      adds =
          subst (Adds sv database try_send i w.published)
            (sym (published-persisted sv database try_send w m))
            (Adds-none sv database try_send i w.published);
      hands =
          persisted-Hands sv database try_send i w m w.kafka (sv.to_string m) refl refl own.0 own.1;
    },
  )

  attempt-Performs :
      (outcome : Outcome) (a : Act S) (w : W)
      → IsOwnAct sv i a
      → Performs w (attempt sv database try_send outcome a w)
  unfolding attempt
  attempt-Performs answered a w own = perform-Performs a w own
  attempt-Performs lost a w own = perform-Performs a w own
  attempt-Performs failed (calls c) w own = perform-Performs (calls c) w own
  attempt-Performs failed (adds_member c t u) w own = still w
  attempt-Performs failed (removes_member c u) w own = still w
  attempt-Performs failed (commands o) w own = still w
  attempt-Performs failed (persists m) w own = still w

  -- A step does not panic, and what is left is the client's own too.
  abbrev pub Resumes : W → Option (Program S × W) → Type 0
  Resumes w o =
      (p' : Program S) × (w' : W) × (o ≡ some (p', w'))
      × IsOwn sv i p'
      × Moved sv database try_send i w w'

  upserted-Resumes :
      (outcome : Outcome) (k : Option Uuid → Program S) (w : W) (o : Option (Uuid × sv.Tables))
      → ((answer : _) → IsOwn sv i (k answer))
      → Resumes w (some (upserted sv database try_send outcome k w o))
  unfolding upserted still
  upserted-Resumes answered k w (some (c, tables')) own =
      (_, _, refl, own (some c), Moved-elsewhere sv database try_send i w _ refl refl refl)
  upserted-Resumes lost k w (some (c, tables')) own =
      (_, _, refl, own none, Moved-elsewhere sv database try_send i w _ refl refl refl)
  upserted-Resumes failed k w (some (c, tables')) own = (_, w, refl, own none, (still w).2)
  upserted-Resumes answered k w none own = (_, w, refl, own none, (still w).2)
  upserted-Resumes lost k w none own = (_, w, refl, own none, (still w).2)
  upserted-Resumes failed k w none own = (_, w, refl, own none, (still w).2)

  resume-Resumes :
      (outcome : Outcome) (p : Program S) (w : W)
      → IsOwn sv i p
      → Resumes w (resume sv database try_send outcome p w)
  unfolding resume still
  resume-Resumes outcome done w own = (done, w, refl, tt, (still w).2)
  resume-Resumes outcome (performs a p) w own =
      let (w', ran, moved) = attempt-Performs outcome a w own.0 in
      (p, w', rw (ran, resume) refl, own.1, moved)
  resume-Resumes outcome (finds t g k) w own = (_, w, refl, own _, (still w).2)
  resume-Resumes outcome (upserts wanted t g u k) w own =
      upserted-Resumes outcome k w (sv.upsert_group w.tables wanted t g u) own.2
  resume-Resumes outcome (asks t g u k) w own = (_, w, refl, own _, (still w).2)

  -- The same of a step that was made.
  pub resume-Moved :
      (outcome : Outcome) (p p' : Program S) (w w' : W)
      → IsOwn sv i p
      → resume sv database try_send outcome p w ≡ some (p', w')
      → IsOwn sv i p' × Moved sv database try_send i w w'
  resume-Moved outcome p p' w w' own h =
      let (q, v, ran, own', moved) = resume-Resumes outcome p w own in
      let same : (q, v) ≡ (p', w') = cc in
      subst (λ (x : Program S × W). IsOwn sv i x.0 × Moved sv database try_send i w x.1) same
        (own', moved)

  finish-Performs :
      (p : Program S) (w : W) → IsOwn sv i p → Performs w (finish sv database try_send p w)
  unfolding finish
  finish-Performs done w own = still w
  finish-Performs (performs a p) w own =
      let (w', ran, moved) = perform-Performs a w own.0 in
      let (w'', ran', moved') = finish-Performs p w' own.1 in
      (w'', rw (ran, finish) ran', Moved-trans sv database try_send i moved moved')
  finish-Performs (finds t g k) w own = finish-Performs (k _) w (own _)
  finish-Performs (upserts wanted t g u k) w own =
      elim (Option-cases (sv.upsert_group w.tables wanted t g u)) [
        | inl e ↦ rw (e, finish) (finish-Performs (k none) w (own.2 none))
        | inr ((c, tables'), e) ↦
            let w' = record w { tables = tables' } in
            let (w'', ran, moved) = finish-Performs (k (some c)) w' (own.2 (some c)) in
            (
              w'',
              rw (e, finish) ran,
              Moved-trans sv database try_send i
                  (Moved-elsewhere sv database try_send i w w' refl refl refl) moved,
            )
      ]
  finish-Performs (asks t g u k) w own = finish-Performs (k _) w (own _)

  pub handle_text_message-Performs :
      (content : String) (d : Draws) (w : W)
      → Performs w (handle_text_message sv database try_send content i d w)
  handle_text_message-Performs content d w =
      subst (Performs w) (finish-text_program sv database try_send content i d w)
        (finish-Performs (text_program sv S content i d) w (text_program-IsOwn sv S i content d))

  -- A turn that does not panic.
  abbrev pub Turns : W → Option (W × Option ℕ) → Type 0
  Turns w o = (turn : W × Option ℕ) × (o ≡ some turn) × Moved sv database try_send i w turn.0

  finish_turn-Turns :
      (t : Option (ℕ × Program S)) (w : W)
      → IsOwnTurn sv S i t
      → Turns w (finish_turn sv database try_send t w)
  unfolding still
  finish_turn-Turns none w own = ((w, none), refl, (still w).2)
  finish_turn-Turns (some (last_activity, p)) w own =
      let (w', ran, moved) = finish-Performs p w own in
      ((w', some last_activity), rw ran refl, moved)

  pub handle_event-Turns :
      (last_activity : ℕ) (e : SocketEvent) (w : W)
      → Turns w (handle_event sv database try_send i last_activity e w)
  handle_event-Turns last_activity e w =
      subst (Turns w) (finish-turn_program sv database try_send i last_activity e w) (
        finish_turn-Turns (turn_program sv S i last_activity e) w
          (turn_program-IsOwnTurn sv S i last_activity e))
