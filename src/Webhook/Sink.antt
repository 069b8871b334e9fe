-- ===== src/Webhook/Sink.antt =====
-- The sink of a dispatch in webhook mode (ctx.go, bot.go): a reply in it carries no upload.
use golagram.Base.{
  ◌≡◌, refl, sym, ap, ◌∙◌, false, Option, none, some, Option-cases, Bool-cases, none_ne_some,
  some_inj, ◌⊎◌, inl, inr,
}
use golagram.Router.{ErrorHandlerFunc}
use golagram.Health.{safe_dispatch, call_handler}
use golagram.Api.Uploads.{contains_upload}
use golagram.Webhook.{
  WebhookReply, HandlerError, as_webhook_reply, UpdateCtx, Replying, WebhookRouter, only_status,
  sunk, Runtime, try_embed, call_reply, resolve_webhook_reply, embed, attempt, beside_sink, written,
}

-- A sink is attached, and holds no reply with an upload.
abbrev pub IsGoodSink : Option (Option WebhookReply) → Type 0
IsGoodSink sink =
    (sink ≡ some none)
    ⊎ ((reply : WebhookReply) × (sink ≡ some (some reply)) × (contains_upload reply.params ≡ false))

abbrev pub HasGoodSink : {World : Type 0} → Replying World → Type 0
HasGoodSink t = IsGoodSink t.reply_sink

pub IsGoodSink-same : {s s' : Option (Option WebhookReply)} → s' ≡ s → IsGoodSink s → IsGoodSink s'
IsGoodSink-same h (inl e) = inl (h ∙ e)
IsGoodSink-same h (inr (reply, e, free)) = inr (reply, h ∙ e, free)

module _ {World : Type 0} (w : Runtime World) where
  try_embed-HasGoodSink :
      (reply : WebhookReply) (t embedded : Replying World)
      → try_embed w reply t ≡ some embedded
      → HasGoodSink embedded
  unfolding try_embed
  try_embed-HasGoodSink reply t embedded h = elim (Option-cases (t.reply_sink)) [
    | inl s ↦ absurd (none_ne_some (rw s at h))
    | inr (old, s) ↦ elim (Bool-cases (contains_upload (reply.params))) [
      | inl e ↦ absurd (none_ne_some (rw (s, e) at h))
      | inr e ↦
          let same = some_inj (rw (s, e) at h) in
          inr (reply, ap (λ (x : Replying World). x.reply_sink) (sym same), e)
    ]
  ]

  resolve_webhook_reply-HasGoodSink :
      (reply : WebhookReply) (t : Replying World)
      → HasGoodSink t
      → HasGoodSink (resolve_webhook_reply w reply t).1
  unfolding resolve_webhook_reply call_reply
  resolve_webhook_reply-HasGoodSink reply t good = elim (Option-cases (try_embed w reply t)) [
    | inl h ↦ rw (resolve_webhook_reply, h) good
    | inr (embedded, h) ↦ rw (resolve_webhook_reply, h) (try_embed-HasGoodSink reply t embedded h)
  ]

  pub embed-HasGoodSink :
      (e : HandlerError) (f : Replying World → Option HandlerError × Replying World)
      → embed w e ≡ some f
      → (t : Replying World) → HasGoodSink t
      → HasGoodSink (f t).1
  unfolding embed
  embed-HasGoodSink e f h t good = elim (Option-cases (as_webhook_reply e)) [
    | inl s ↦ absurd (none_ne_some (rw (embed, s) at h))
    | inr (reply, s) ↦
        let same : resolve_webhook_reply w reply ≡ f = some_inj (rw (embed, s) at h) in
        rw (sym same) (resolve_webhook_reply-HasGoodSink reply t good)
  ]

  pub attempt-sink :
      (rt : WebhookRouter World) (t : Replying World)
      → (safe_dispatch (w.error_text) (embed w) (attempt w rt t)).2.reply_sink ≡ t.reply_sink
  unfolding attempt safe_dispatch
  attempt-sink rt t = elim (Option-cases (w.panics (t.ctx))) [
    | inl h ↦ rw (attempt, h) refl
    | inr (p, h) ↦ rw (attempt, h) refl
  ]

  pub call_handler-sink :
      (eh : Option (ErrorHandlerFunc (UpdateCtx World) HandlerError)) (e : HandlerError)
      (t : Replying World)
      → (call_handler (w.error_text) (embed w) (beside_sink w eh) e t).reply_sink ≡ t.reply_sink
  call_handler-sink none e t = refl
  call_handler-sink (some h) e t = refl

  pub written-sunk :
      (t : Replying World)
      → HasGoodSink t
      → (written w (sunk t.reply_sink) ≡ only_status 200)
        ⊎ ((reply : WebhookReply) × (contains_upload reply.params ≡ false)
            × (written w (sunk t.reply_sink) ≡ written w (some reply)))
  unfolding written
  written-sunk t (inl h) = inl (ap (λ s. written w (sunk s)) h)
  written-sunk t (inr (reply, h, free)) = inr (reply, free, ap (λ s. written w (sunk s)) h)
