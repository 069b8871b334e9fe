-- ===== src/Lib.antt =====
-- A model of golagram, a Telegram bot library in Go, and of what makes it correct.
--
-- An update goes through the router's tree of filters, middleware and handlers; a handler reads the
-- command of a message, keeps the state of its conversation in a storage under a key of chat, user
-- and thread, lays out keyboards whose buttons carry packed data, and answers with text that is
-- translated, escaped for a parse mode and split to Telegram's limit. The files stand for these parts:
--
--   Router    router.go: Dispatch, the middleware order, ErrSkipHandler and the error handlers, the
--             search for the first matching route, and the filters of a registration. A handler is
--             a function of the shared state, so that what one changes the next sees; ErrSkipHandler
--             is recognised by a parameter (errors.Is). Router/Flat has the specification, the tree
--             read as one list; Router/Allowed is UsedUpdateKinds, Router/Include the graph that
--             Include builds, with its test for cycles on fuel.
--   Commands  commands.go: ParseCommand.
--   Fsm       fsm.go: State, StateGroup, FSMKeyStrategy.apply, StorageKey.
--             Fsm/Memory is fsm_memory.go: each method of MemoryStorage holds one lock from its first
--             line to its last, and is one function from the entries to the entries; the clock is an
--             argument, and encoding/json a pair of functions. Fsm/Refine has the specification over
--             the conversations of Fsm/Views,
--             Fsm/Expiry the sweep.
--   Escape    format.go: EscapeHTML, EscapeMarkdownV2, EscapeMarkdownV2Code, EscapeMarkdownV2Link,
--             specified by readers of the two parse modes in Escape/RoundTrip.
--   Split     format.go: SplitText, SplitTextWithEntities and their helpers, with lemmas on the split
--             point (Point), what stands between chunks (Seams), surrogates (Boundary), the loop
--             (Chunks), and the results (Correct).
--   KeyedMutex  keyed_mutex.go: Lock and Unlock in two atomic steps each, of any number of threads.
--             KeyedMutex/Invariant has what every reachable state keeps, KeyedMutex/Exclusion the
--             theorems.
--   Keyboard  keyboard.go and inline_keyboard.go: Row, Add, Insert, Adjust, Build and adjustRows, over
--             any type of buttons. Keyboard/Rows is about the layout, Keyboard/Built about sequences
--             of calls.
--   Backoff   backoff.go: NewBackoff, Next and Reset over the bit patterns of int64 durations.
--   AdminCache  admin_cache.go: the entries, their expiry, and FilterIsAdmin, the answers of
--             GetChatMember being a parameter.
--   Wizard    wizard.go: Step's state, Enter, Exit, Cancel, Next, Back and GoTo, over a record of the
--             two FSMContext operations they call. Wizard/Walk has the theorems, on any storage whose
--             calls do not fail; Wizard/Tests fills it with MemoryStorage.
--   Update    update.go, ctx.go, sender.go: an update with its payloads, Kind and the registrations'
--             payloads (Kinds), the accessors of a Ctx and the identity of its state (Context), the
--             sender (Sender), what these agree on (Identity), and the keys of Message.FSM and
--             CallbackQuery.FSM (Keys).
--   Filters   filters.go: every filter as a test of the Ctx (Filters, Content, Members), specified in
--             Filters/Laws and Filters/Changes.
--   CallbackData  callback_data.go: the schema, Pack, Unpack, Filter and FilterWhere. HMAC-SHA256 and
--             strconv's float64 format are parameters. CallbackData/Fields reads the fields back,
--             Tags is about the HMAC tag, RoundTrip and Errors have the theorems.
--   Pagination  pagination.go: Row, Page and Filter; Pagination/Targets has the pages that a row leads
--             to.
--   DeepLink  deeplink.go: payloads and links; DeepLink/Accepted has the payloads that a link carries.
--   Translations  i18n.go: I18n, its fallback chain (Translations/Fallback) and the plural rules
--             (Translations/Plurals). fmt.Sprintf and encoding/json are parameters.
--   MediaGroup  media_group.go: the builder of albums and Build; MediaGroup/Album has the albums that it
--             accepts.
--   Health    health.go and dispatchCtx, safeDispatch and handleError of bot.go: an update's dispatch
--             behind its lock, over the run of the router, which may panic, with the counters of the
--             monitor. Health/Counts has the counters' balance.
--   Format    format_entities.go and entity_text.go: the tree of formatted text, Render, EntityText and
--             EntitySegments, with lemmas on the boundaries of entities (Bounds), on what stands at
--             which position (Positions) and on what a segment's entities cover (Covering), and the
--             results (Rendered, Segments, Coverage).
--   Polling   bot.go: the loop of Run over the answers of getUpdates and the moment of cancellation,
--             and skipPendingUpdates. Polling/Server says what is relied on in getUpdates,
--             Polling/Queued has the theorem on what is queued.
--   Api       internal/api/client.go and input_file.go: doRequest's loop with retryDelay over what its
--             attempts meet, sanitizeTokenError, and containsUpload and hoistUploads over the values
--             that reflect shows (Api/Uploads). Api/Retries, Api/Redacted and Api/Hoisted have the
--             theorems.
--   Broadcast  broadcast.go and errors.go: the feeding of chats to workers, sendOne and resolve as a step
--             relation over any interleaving, with the pacer's and the send function's answers in the
--             steps; Broadcast/Accounted has the invariant.
--   Validation  validation.go: the checks of tokens, texts and markups. Validation/Accepted says what
--             passes them, and joins them to the splitter and to the client's redaction of tokens.
--   Webhook   webhook.go's Handler, webhook_reply.go, the reply sink of ctx.go, and dispatchSync and
--             resolveWebhookReply of bot.go, which put Router's and Health's dispatch together: the
--             world of the bot, its counters and its channel go through a request. Webhook/Sink is
--             about the sink, Webhook/Taken about what becomes of an update.
--   WebApp    webapp.go: the data check string, and in WebApp/Validators the three validators, over a
--             record of the services that are not the library's. WebApp/Checked has the theorem.
--   Generator  internal/gen/naming.go and unions.go: the names of the generated types and fields, the
--             discriminators of unions, and the decoders written for them. Generator/Decodable has the
--             theorem.
--   Utf16     the functions of unicode/utf16 that the splitter calls.
--   Strconv, Base64  the functions of strconv and of base64.RawURLEncoding that the code calls. 20
--             rounds print a number below 2^64, which has at most 20 digits.
--   Strings   the functions of strings that the parsers call.
--   Base      numbers, lists, slices u[a:b] and maps as association lists.
--
-- A text is the list of its characters, a UTF-16 text the list of its code units; the texts of button
-- data and of links are lists of bytes, which their limits count. Loops without a bound of their own
-- run on fuel: the retreat of a split point from the entities has one round more
-- than the position it starts from, and each round lowers it; the search for a break has one round
-- more than the window's edge, which each round lowers; the loop over chunks has one round more than
-- the text has units, and each round moves its start. The theorems on the splitter state that the
-- fuel is enough, since their conclusions fail where it runs out. The test for cycles runs on more fuel
-- than the rank of the router it starts from, and each included router has a lower rank.
--
-- Not modelled: negative entity offsets in the splitter and sums of an offset and a length beyond an
-- int64 (its model has natural numbers), identifiers of updates from 2^63 - 1 on, texts that are not
-- valid UTF-8, the goroutines behind the storage's sweep and behind the update loop, freezing
-- of routers, the payloads of updates beyond the fields that the library reads, and the parts that
-- only exchange requests with the Bot API; nor the rate
-- limiter and the broadcasts' pacer, which count in floating-point numbers, rich messages,
-- RunWebhook's server, and the texts that the code generator writes.
pub mod AdminCache
pub mod Api
pub mod Backoff
pub mod Base
pub mod Base64
pub mod Broadcast
pub mod CallbackData
pub mod Commands
pub mod DeepLink
pub mod Escape
pub mod Filters
pub mod Format
pub mod Fsm
pub mod Generator
pub mod Health
pub mod Keyboard
pub mod KeyedMutex
pub mod MediaGroup
pub mod Pagination
pub mod Polling
pub mod Router
pub mod Split
pub mod Strconv
pub mod Strings
pub mod Translations
pub mod Update
pub mod Utf16
pub mod Validation
pub mod WebApp
pub mod Webhook
pub mod Wizard
