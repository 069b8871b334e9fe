-- ===== src/Webhook/Taken.antt =====
-- What the handler of webhook.go has done with an update when it acknowledges it.
use golagram.Base.{ℕ, ◌≤◌, ◌≡◌, false, List, [], ◌∷◌, ◌++◌, some, ◌⊎◌, codes, length}
use golagram.Health.{next_count}
use golagram.Update.{Update}
use golagram.Api.Uploads.{contains_upload}
use golagram.Webhook.{
  WebhookReply, WebhookBot, body_text, Request, Answer, only_status, given_up,
  max_webhook_body_bytes, Runtime, written,
}

abbrev pub HandlerOutcome : Type 0 → Type 0
HandlerOutcome World = Answer × WebhookBot World

module _ {World : Type 0} (w : Runtime World) where
  module _ (secret : List ℕ) where
    -- A request that Handler accepts, with the update that it carries.
    pub record Accepts (r : Request) (u : Update) : Type 0 where
      pub posted : r.method ≡ codes "POST"
      pub allowed : (secret ≡ []) ⊎ (r.secret_header ≡ secret)
      pub carried :
          (raw : List ℕ) × (r.body ≡ body_text raw)
          × (length raw ≤ max_webhook_body_bytes)
          × (w.decode raw ≡ some u)

    -- The update goes to the end of the channel, and is not dispatched.
    pub record IsQueued (u : Update) (b : WebhookBot World) (out : HandlerOutcome World)
        : Type 0 where
      pub answered : out.0 ≡ only_status 200
      pub queued : out.1.update_chan ≡ b.update_chan ++ u ∷ []
      pub same_health : out.1.health ≡ b.health

    -- The update is dispatched once and not queued, a reply in the body carrying no upload.
    pub record IsDispatched (b : WebhookBot World) (out : HandlerOutcome World) : Type 0 where
      pub answered :
          (out.0 ≡ only_status 200)
          ⊎ ((reply : WebhookReply) × (contains_upload reply.params ≡ false)
              × (out.0 ≡ written w (some reply)))
      pub not_queued : out.1.update_chan ≡ b.update_chan
      pub counted : out.1.health.updates_dispatched ≡ next_count b.health.updates_dispatched

    -- The update, if there is one, is left to Telegram.
    pub record IsLeft (r : Request) (b : WebhookBot World) (out : HandlerOutcome World)
        : Type 0 where
      pub answered :
          (out.0 ≡ only_status 400)
          ⊎ (out.0 ≡ only_status 403)
          ⊎ (out.0 ≡ only_status 405)
          ⊎ (out.0 ≡ only_status 413)
          ⊎ ((out.0 ≡ given_up) × (r.has_room ≡ false))
      pub not_queued : out.1.update_chan ≡ b.update_chan
      pub same_health : out.1.health ≡ b.health

    abbrev pub IsSettled : Request → WebhookBot World → HandlerOutcome World → Type 0
    IsSettled r b out =
        ((u : Update) × Accepts r u × (IsQueued u b out ⊎ IsDispatched b out)) ⊎ IsLeft r b out
