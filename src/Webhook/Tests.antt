-- ===== src/Webhook/Tests.antt =====
-- The handler at a bot that answers a message with a reply in the response.
use golagram.Base.{
  ℕ, ◌≡◌, refl, ◌+◌, Bool, true, false, [], Option, none, some, codes, length, text_eq,
}
use golagram.Router.{
  router, Route, leaf, no_routes, ErrorHandlerFunc, first_of_leaf, dispatch, settled, try_leaf,
  skips, handle_or_bubble,
}
use golagram.Health.{new_health_monitor}
use golagram.Update.{empty_update}
use golagram.Api.Uploads.{pointer, struct, file, item, scalar, end}
use golagram.Webhook.{
  WebhookReply, HandlerError, webhook_reply_error, UpdateCtx, WebhookRouter, WebhookBot, body_text,
  Request, Answer, only_status, json_body, Runtime, handle, attempt,
}

abbrev to_text : WebhookReply
to_text = record { method = codes "sendMessage"; params = pointer (struct (item (scalar 7) end)) }

abbrev to_upload : WebhookReply
to_upload = record {
  method = codes "sendPhoto";
  params =
      pointer (
        struct
          (item (file (record { value = []; filename = codes "a.png"; reader = some 1 })) end));
}

-- The world counts the calls of the Bot API.
abbrev runtime : Runtime ℕ
runtime = record {
  decode = λ raw. some (empty_update (length raw));
  encode = λ reply. some reply.method;
  call = λ reply calls. (none, calls + 1);
  error_text = λ e. codes "error";
  panics = λ c. none;
}

abbrev replying : WebhookReply → Bool → Route (UpdateCtx ℕ) HandlerError
replying reply allow = record {
  kind = codes "message";
  condition = λ c. (true, c);
  handler = λ c. (some (webhook_reply_error reply), c);
  flags = 0;
  allow_webhook_reply = allow;
}

abbrev no_handler : Option (ErrorHandlerFunc (UpdateCtx ℕ) HandlerError)
no_handler = none

abbrev routing : WebhookReply → Bool → WebhookRouter ℕ
routing reply allow = router [] [] none (leaf (replying reply allow) no_routes)

-- The same router, with an OnError of its own that does nothing.
abbrev with_on_error : WebhookReply → WebhookRouter ℕ
with_on_error reply = router [] [] (some (λ e c. c)) (leaf (replying reply true) no_routes)

abbrev bot : WebhookBot ℕ
bot = record { world = 0; health = new_health_monitor 1; update_chan = [] }

abbrev posted : Request
posted = record {
  method = codes "POST";
  secret_header = codes "s3cret";
  body = body_text (codes "{}");
  has_room = true;
}

abbrev answer_of : WebhookRouter ℕ → Answer × ℕ × ℕ
unfolding handle
answer_of rt =
    let out = handle runtime (codes "s3cret") (some rt) no_handler 2 posted bot in
    (out.0, out.1.world, length out.1.update_chan)

embedded : answer_of (routing to_text true) ≡ (json_body (codes "sendMessage"), 0, 0)
unfolding handle text_eq first_of_leaf attempt dispatch settled try_leaf skips handle_or_bubble
embedded = refl

sent_with_its_upload : answer_of (routing to_upload true) ≡ (only_status 200, 1, 0)
unfolding handle text_eq first_of_leaf attempt dispatch settled try_leaf skips handle_or_bubble
sent_with_its_upload = refl

queued_without_opt_in : answer_of (routing to_text false) ≡ (only_status 200, 0, 1)
unfolding handle text_eq first_of_leaf
queued_without_opt_in = refl

-- A router's own OnError takes the reply for an error: it is neither embedded nor sent.
lost_to_on_error : answer_of (with_on_error to_text) ≡ (only_status 200, 0, 0)
unfolding handle text_eq first_of_leaf attempt dispatch settled try_leaf skips handle_or_bubble
lost_to_on_error = refl
