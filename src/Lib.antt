-- ===== src/Lib.antt =====
-- The llm.v1 model proxy of OpenEvent: a worker that answers model requests from an OpenEvent
-- channel (src/openevent/model_proxy) and a client library (src/openevent/model_proxy_sdk).
--
-- The parts. A client publishes a request event, and its one subscription reads the channel and sorts
-- the worker's result, append, end and cancel events to the calls that wait for them. The worker reads
-- the same channel, queues new requests for at most `max_concurrency` provider threads, refuses
-- duplicates and invalid requests by a control thread, and publishes the outputs of a provider as a
-- chain of events. Both sides validate each event by models.py and publish by publishing.py, which
-- retries by rpc.py.
--
--   Json          src/openevent/model_proxy_sdk/_json.py: `_integer_text`, `_parse_int`, `dumps`
--                 (Encode).
--   Models        src/openevent/model_proxy_sdk/models.py: `_validate`, `parse_payload`, `parse_message`
--                 (Value, Kind, Validate, Payload), and the input classes (Input).
--   Rpc           src/openevent/model_proxy_sdk/rpc.py: `status_name`, `is_retryable`, `call_rpc`.
--   Publishing    src/openevent/model_proxy_sdk/publishing.py: `_publish` (Publish), and the functions
--                 around it (Api).
--   Subscription  src/openevent/model_proxy_sdk/subscription.py: the sections under the lock of
--                 `Subscription`, one function each (State, Locked, Output, Accept, Client); their
--                 interleavings (Reach); the life of one call's queue (Delivery).
--   Client        src/openevent/model_proxy_sdk/openai.py and errors.py: `OpenAIStream.__next__`,
--                 `_context`, `_protocol_error`, `_close_call`, `_create`, `make_api_error`; the
--                 constructor of `OpenAI` (Settings).
--   Provider      src/openevent/model_proxy/provider.py: the byte loop of `_sse` (Frames), what it does
--                 with a frame, `_json_body` (Events), `__iter__` (Call), `_connect` (Connect); the
--                 socket under cancellation (Socket).
--   Config        src/openevent/model_proxy/config.py: `_fields`, `_integer`, `_string` (Checks),
--                 `_mapping` (Mapping), `parse_config` (Parse).
--   Worker        src/openevent/model_proxy/worker.py: `_accept`, `_schedule`, `_control_outputs`,
--                 `_provider_task`, `stop`, `_error_output` (State, Accept, Queues, Events, Task); their
--                 interleavings (Reach); `_emit` (Emit); the reader of `run` (Run); the scan of
--                 `recover` (Recover), and its answers to open requests (Resume). From a provider's
--                 answer to the client's iteration or return (Linked, Received, Answer, EndToEnd, Whole).
--
-- The correspondence. A Python object that several places share (a `Call`, a `RequestState`) stands in
-- a store under its identity, and the indexes hold identities. A method that runs under a lock is a
-- function on the state; a thread is what it does in its sections under the lock, and an interleaving
-- is a sequence of steps of the relation `Step`. An exception is a value of `Outcome` or a constructor
-- of the method's result. Python integers are the native numbers; a decoded JSON value may be negative
-- and has the type `Value`.
--
-- Loops. `call_rpc` and the loop of `_publish` recurse on the retries that are left, which is their
-- bound in the source. `__next__` recurses along the queue, and the iteration of a client on a number
-- of calls, for which the length of the queue is enough. The scan of `recover` runs on fuel: a page
-- advances the cursor, so the target seq is enough. The digit loops of _json.py run on the number, or
-- on the length of the text.
--
-- What stands outside. `json.loads` is the parameter `loads`, and `json.dumps` is `dumps` or
-- `standard`; `decode` is the UTF-8 decoder, `lower` is `str.lower`, and `urlsplit` has its name.
-- The YAML loader's construction of a node is `construct`. A response of http.client is the record
-- `Response`; `AreAscii` says that its header names are ASCII, and `Lowers` what `str.lower` does
-- with such a name. The RPCs of OpenEvent are `World`: a function of the number of the attempt;
-- `Server` says what Publish promises of the stored event, and `Serves` what Fetch promises of the
-- history.
--
-- Not modelled: the check of the channels at a start (`_validate_channels`), the exchange of the
-- request for the response headers, the decompression of a body, the
-- loading of the configuration file, the command line and the installer; streams with their cancellation,
-- callbacks, logging, delays and elapsed times; the garbage collection of unused calls; copies of
-- errors and bodies, since values are not mutated here; the message texts of exceptions; the error
-- that an earlier close of a call has recorded.
pub mod Base
pub mod Json
pub mod Models
pub mod Rpc
pub mod Publishing
pub mod Subscription
pub mod Client
pub mod Provider
pub mod Worker
pub mod Config
