-- ===== src/Worker/Messages/Edit/Tombstone.antt =====
-- What edits and deletions leave.
use mqtt_chat.Base.{
  String, some, true, not, ◌&&◌, ◌==◌, string_eq, ◌≡◌, refl, sym, subst, inl, inr, ◌∙◌, Bool-cases,
}
use mqtt_chat.Contracts.Envelope.{CommandEnvelope, truthy}
use mqtt_chat.Contracts.Commands.{EditMessageCommand, DeleteMessageCommand}
use mqtt_chat.Store.Rows.{Message}
use mqtt_chat.Store.Prisma.{Prisma, IsPrisma}
use mqtt_chat.Worker.Context.{Env, World, acked, after, is_some}
use mqtt_chat.Worker.Messages.Edit.{handle_message_edit, handle_message_delete}
use mqtt_chat.Worker.Messages.Edit.Rights.{
  target, edit, erase, erased_db, Edited, edit_rights, may_delete, deleted_world, delete_rights,
  find-update_rows, sequences-update_rows,
}
use mqtt_chat.Worker.Messages.Sequence.{IsNumbered}

-- An edit, whatever its outcome, keeps the numbering of every conversation.
pub edit-IsNumbered :
    (P : Prisma) (h : IsPrisma P) (env : Env) (envelope : CommandEnvelope EditMessageCommand)
    (w : World)
    → IsNumbered w.db
    → IsNumbered (after (handle_message_edit P env envelope w)).db
edit-IsNumbered P h env envelope w numbered = elim (edit_rights P h env envelope w) [
  | inl done ↦
      subst (λ o. IsNumbered (after o).db) (sym done.outcome)
        (λ k.
          sequences-update_rows k (λ x. x.id == envelope.payload.message_id)
            (edit env envelope.payload) w.db.messages (λ x. refl) (λ x. refl)
          ∙ numbered k)
  | inr refused ↦ subst (λ o. IsNumbered (after o).db) (sym refused.outcome) numbered
]

module _ (P : Prisma) (h : IsPrisma P) (env : Env) (envelope : CommandEnvelope DeleteMessageCommand)
    (w : World) (user_id : String) (m : Message)
    (identified : truthy envelope.actor.user_id ≡ some user_id)
    (found : target w.db envelope.payload.message_id ≡ some m) where
  erased-IsNumbered : IsNumbered w.db → IsNumbered (erased_db env envelope user_id w.db)
  erased-IsNumbered numbered k =
      sequences-update_rows k (λ x. x.id == envelope.payload.message_id) (erase env) w.db.messages
        (λ x. refl) (λ x. refl)
      ∙ numbered k

  -- A deletion keeps the numbering of every conversation.
  pub delete-IsNumbered :
      IsNumbered w.db → IsNumbered (after (handle_message_delete P env envelope w)).db
  delete-IsNumbered numbered =
      subst (λ o. IsNumbered (after o).db)
        (sym (delete_rights env envelope w user_id m identified found P h))
        (elim (Bool-cases
          (may_delete w.db envelope.payload user_id m && not (is_some m.deleted_at))) [
            | inl lawful ↦ rw lawful (erased-IsNumbered numbered)
            | inr refused ↦ rw refused numbered
          ])

  deleted_world-target :
      may_delete w.db envelope.payload user_id m ≡ true
      → (x : Message) × (target
            (deleted_world env envelope w user_id m identified found).db
            envelope.payload.message_id
          ≡ some x)
        × (is_some x.deleted_at ≡ true)
  deleted_world-target lawful = elim (Bool-cases (is_some m.deleted_at)) [
    | inl before ↦ (m, rw (lawful, before) found, before)
    | inr alive ↦ (
      erase env m,
      rw (lawful, alive)
          (find-update_rows envelope.payload.message_id (erase env) w.db.messages m (λ x. refl)
            found),
      refl,
    )
  ]

  -- Once a user who may delete a message has done so, every edit of it, by anybody, changes nothing.
  pub edit-delete :
      may_delete w.db envelope.payload user_id m ≡ true
      → (later : Env) (editing : CommandEnvelope EditMessageCommand)
      → editing.payload.message_id ≡ envelope.payload.message_id
      → let gone = after (handle_message_delete P env envelope w) in
        handle_message_edit P later editing gone ≡ acked gone
  edit-delete lawful later editing same =
      rw (delete_rights env envelope w user_id m identified found P h)
        (elim (edit_rights P h later editing world) [
          | inl done ↦ absurd (revived done)
          | inr refused ↦ refused.outcome
        ])
    where
      world : World
      world = deleted_world env envelope w user_id m identified found

      revived : Edited later editing world (handle_message_edit P later editing world) → ⊥
      revived done =
          let (x, there, dead) = deleted_world-target lawful in
          let alive = done.right.alive in
          let seen : target world.db envelope.payload.message_id ≡ some done.message =
            subst (λ id. target world.db id ≡ some done.message) same done.found in
          cc (there, seen, dead, alive)
