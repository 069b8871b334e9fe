-- ===== src/Webhook.antt =====
-- webhook.go: the HTTP handler that receives updates; webhook_reply.go and the sink of ctx.go: replies
-- in the body of the response; bot.go: dispatchSync and resolveWebhookReply. A request is what the
-- server shows of it. The bot's world is what handlers and filters change besides their Ctx.
mod Sink
pub mod Taken
mod Tests
use golagram.Base.{
  ℕ, ◌<◌, Bool, true, false, not, ◌&&◌, ◌||◌, List, [], ◌∷◌, ◌++◌, Option, none, some, ◌⊎◌, inl,
  inr, if◌then◌else◌, text_eq, codes, length, ltb,
}
use golagram.Router.{Router, ErrorHandlerFunc, Route, dispatch, first_matching_route, allows}
use golagram.Health.{HealthMonitor, Attempt, returned, panicked, dispatch_ctx}
use golagram.Update.{Update}
use golagram.Update.Kinds.{kind}
use golagram.Api.Uploads.{Value, contains_upload}

pub record WebhookReply : Type 0 where
  pub method : List ℕ
  pub params : Value

-- The errors of handlers: what Reply returns, ErrSkipHandler, and errors that hold others.
pub data HandlerError : Type 0 where
  webhook_reply_error : WebhookReply → HandlerError
  skip_handler : HandlerError
  text_error : List ℕ → HandlerError
  wrapped : List ℕ → HandlerError → HandlerError

-- errors.As for a reply, and errors.Is for ErrSkipHandler
unfoldable pub as_webhook_reply : HandlerError → Option WebhookReply
as_webhook_reply (webhook_reply_error reply) = some reply
as_webhook_reply skip_handler = none
as_webhook_reply (text_error text) = none
as_webhook_reply (wrapped text e) = as_webhook_reply e

unfoldable pub is_skip : HandlerError → Bool
is_skip (webhook_reply_error reply) = false
is_skip skip_handler = true
is_skip (text_error text) = false
is_skip (wrapped text e) = is_skip e

-- A Ctx, without its sink, which handlers and filters cannot reach.
pub record UpdateCtx (World : Type 0) : Type 0 where
  pub update : Update
  pub flags : ℕ
  pub values : List (List ℕ × ℕ)
  pub world : World

abbrev pub with_flags : {World : Type 0} → ℕ → UpdateCtx World → UpdateCtx World
with_flags flags c = record c { flags = flags }

unfoldable pub new_ctx : {World : Type 0} → Update → World → UpdateCtx World
new_ctx u world = record { update = u; flags = 0; values = []; world = world }

-- A Ctx with its sink: none where no sink is attached.
pub record Replying (World : Type 0) : Type 0 where
  pub reply_sink : Option (Option WebhookReply)
  pub ctx : UpdateCtx World

abbrev pub WebhookRouter : Type 0 → Type 0
WebhookRouter World = Router (UpdateCtx World) HandlerError

pub record WebhookBot (World : Type 0) : Type 0 where
  pub world : World
  pub health : HealthMonitor
  pub update_chan : List Update

-- The body of a request: a text, or one whose reading fails before the limit.
pub data Body : Type 0 where
  unreadable : Body
  body_text : List ℕ → Body

-- `has_room` tells whether the select queues the update, or ctx.Done comes first.
pub record Request : Type 0 where
  pub method : List ℕ
  pub secret_header : List ℕ
  pub body : Body
  pub has_room : Bool

-- What the handler writes: a status alone, a body in JSON, or nothing, as Encode failed or as the
-- client gave up.
pub data Answer : Type 0 where
  only_status : ℕ → Answer
  json_body : List ℕ → Answer
  not_encoded : Answer
  given_up : Answer

unfoldable pub max_webhook_body_bytes : ℕ
max_webhook_body_bytes = 1048576

-- secretTokenMatches, where a secret is set
unfoldable pub has_secret : List ℕ → Request → Bool
has_secret secret r = text_eq secret [] || text_eq r.secret_header secret

-- io.ReadAll of the capped body: the status of a failure, or the text.
unfoldable pub read_all : Body → ℕ ⊎ List ℕ
unfolding max_webhook_body_bytes
read_all unreadable = inl 400
read_all (body_text raw) = if ltb max_webhook_body_bytes (length raw) then inl 413 else inr raw

abbrev pub sunk : Option (Option WebhookReply) → Option WebhookReply
sunk none = none
sunk (some reply) = reply

-- Parameters: encoding/json for an update and for a reply, what a call of the Bot API client comes
-- to, an error's text, and the panics of handlers.
pub record Runtime (World : Type 0) : Type 0 where
  pub decode : List ℕ → Option Update
  pub encode : WebhookReply → Option (List ℕ)
  pub call : WebhookReply → World → Option HandlerError × World
  pub error_text : HandlerError → List ℕ
  pub panics : UpdateCtx World → Option (HandlerError × UpdateCtx World)

module _ {World : Type 0} (w : Runtime World) where
  -- tryEmbedWebhookReply: the sink behind it, if the reply can be embedded.
  unfoldable pub try_embed : WebhookReply → Replying World → Option (Replying World)
  unfolding contains_upload
  try_embed reply t = elim (t.reply_sink) [
    | none ↦ none
    | some old ↦
        if contains_upload reply.params
        then none
        else some (record t { reply_sink = some (some reply) })
  ]

  abbrev pub reply_failed : WebhookReply → Option HandlerError → Option HandlerError
  reply_failed reply none = none
  reply_failed reply (some e) = some (wrapped (codes "reply(" ++ reply.method ++ codes "): ") e)

  unfoldable pub call_reply : WebhookReply → Replying World → Option HandlerError × Replying World
  call_reply reply t =
      let (err, world) = w.call reply t.ctx.world in
      (reply_failed reply err, record t { ctx = record (t.ctx) { world = world } })

  unfoldable pub resolve_webhook_reply :
      WebhookReply → Replying World → Option HandlerError × Replying World
  unfolding try_embed call_reply
  resolve_webhook_reply reply t = elim (try_embed reply t) [
    | none ↦ call_reply reply t
    | some embedded ↦ (none, embedded)
  ]

  unfoldable pub embed :
      HandlerError → Option (Replying World → Option HandlerError × Replying World)
  unfolding as_webhook_reply resolve_webhook_reply
  embed e = elim (as_webhook_reply e) [
    | none ↦ none
    | some reply ↦ some (resolve_webhook_reply reply)
  ]

  -- A run of the router, and the bot's error handler, with the sink beside the Ctx.
  unfoldable pub attempt :
      WebhookRouter World → Replying World → Attempt (Replying World) HandlerError
  unfolding is_skip
  attempt rt t = elim (w.panics (t.ctx)) [
    | none ↦
        let (matched, err, c) = dispatch is_skip with_flags rt t.ctx in
        returned matched err (record t { ctx = c })
    | some p ↦ panicked p.0 (record t { ctx = p.1 })
  ]

  abbrev pub beside_sink :
      Option (ErrorHandlerFunc (UpdateCtx World) HandlerError)
      → Option (ErrorHandlerFunc (Replying World) HandlerError)
  beside_sink none = none
  beside_sink (some h) = some (λ e t. record t { ctx = h e t.ctx })

  abbrev pub router_run :
      Option (WebhookRouter World) → Option (Replying World → Attempt (Replying World) HandlerError)
  router_run none = none
  router_run (some rt) = some (attempt rt)

  unfoldable pub written : Option WebhookReply → Answer
  written none = only_status 200
  written (some reply) = elim (w.encode reply) [ none ↦ not_encoded | some text ↦ json_body text ]

  module _ (secret : List ℕ) (rt : Option (WebhookRouter World))
      (eh : Option (ErrorHandlerFunc (UpdateCtx World) HandlerError)) (now : ℕ) where
    -- dispatchSync, of a Ctx with a fresh sink.
    unfoldable pub dispatch_sync : UpdateCtx World → HealthMonitor → HealthMonitor × Replying World
    unfolding dispatch_ctx embed
    dispatch_sync c hm =
        dispatch_ctx w.error_text embed (beside_sink eh) (router_run rt) now (kind c.update) hm
          (record { reply_sink = some none; ctx = c })

    unfoldable pub answer_sync : UpdateCtx World → WebhookBot World → Answer × WebhookBot World
    unfolding dispatch_sync written
    answer_sync c b =
        let (hm, t) = dispatch_sync c b.health in
        (written (sunk t.reply_sink), record b { world = t.ctx.world; health = hm })

    unfoldable pub hand_off : Bool → Update → WebhookBot World → Answer × WebhookBot World
    hand_off true u b = (only_status 200, record b { update_chan = b.update_chan ++ u ∷ [] })
    hand_off false u b = (given_up, b)

    -- Behind the decoder, with the conditions' effects on the world.
    unfoldable pub take_update : Bool → Update → WebhookBot World → Answer × WebhookBot World
    unfolding answer_sync hand_off first_matching_route allows new_ctx
    take_update has_room u b = elim rt [
      | none ↦ hand_off has_room u b
      | some r ↦
          let (found, c) = first_matching_route r (new_ctx u b.world) in
          if allows found
          then answer_sync c b
          else hand_off has_room u (record b { world = c.world })
    ]

    unfoldable pub take_body : Request → WebhookBot World → Answer × WebhookBot World
    unfolding read_all take_update
    take_body r b = elim (read_all (r.body)) [
      | inl status ↦ (only_status status, b)
      | inr raw ↦ elim (w.decode raw) [
        | none ↦ (only_status 400, b)
        | some u ↦ take_update r.has_room u b
      ]
    ]

    -- Handler
    unfoldable pub handle : Request → WebhookBot World → Answer × WebhookBot World
    unfolding has_secret take_body
    handle r b =
        if not (text_eq r.method (codes "POST"))
        then (only_status 405, b)
        else if not (has_secret secret r)
        then (only_status 403, b)
        else take_body r b
