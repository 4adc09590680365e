-- ===== src/Lib.antt =====
-- vumi2 connects messaging transports to applications over AMQP. Its workers take messages and
-- events from connectors, transform them and publish them on other connectors. This library
-- models the parts that carry state or decide what is sent, and proves what makes them correct.
--
-- The parts and their files:
--
-- Messages, Messages/Value: `Message`, `Event`, their enumerations and `Message.reply` of
--   src/vumi2/messages.py. Every other part makes or reads these. Messages/Timestamps is the
--   reading and writing of timestamps as texts.
-- Cache/TimeoutDict, Cache/MessageCache: `TimeoutDict` and `MemoryMessageCache` of
--   src/vumi2/message_caches.py. `set_item`, `get_item`, `del_item` and `pop` are the methods
--   `__setitem__`, `__getitem__`, `__delitem__` and `pop`, `values` is the view of that name.
-- Smpp: the transport src/vumi2/transports/smpp. Smpp/Cache is `InMemorySmppCache` of
--   smpp_cache.py, which keeps parts of messages and the ids of the server in a `TimeoutDict`.
--   Smpp/Sequencers is sequencers.py and Smpp/Codecs the codec of codecs.py. Of processors.py,
--   Smpp/Submit is `SubmitShortMessageProcessor` (text to `submit_sm` PDUs), Smpp/Deliver is
--   `ShortMessageProcessor` (`deliver_sm` to messages) and Smpp/Reports is
--   `DeliveryReportProcesser` (`deliver_sm` to events), with its default expression in
--   Smpp/Reports/Regex; the last two share the cache. Of client.py, Smpp/Framing is
--   `extract_pdu` with the loop of `consume_stream`, Smpp/Client is `send_pdu` with
--   `send_vumi_message`, and Smpp/Client/Handlers is `handle_pdu` with the handlers that it
--   calls. Smpp/Pdu has the records of the PDUs, and Smpp/Enums the converters of the
--   enumerations in the configurations. Smpp/Transport is `SmppTransceiverTransport` of smpp.py,
--   between Smpp/Client and Connectors/Base, and Smpp/Transport/Answering and
--   Smpp/Transport/Reporting join an application, the transport and the server.
-- Workers: the connectors and the chain of middlewares of `BaseWorker` in src/vumi2/workers.py,
--   with src/vumi2/middlewares/base.py. Workers/Health is its health check, Workers/Middlewares
--   the middlewares of logging.py and unidecoder.py beside base.py, and Workers/Classes is
--   `class_from_string` of src/vumi2/class_helpers.py, which finds the classes that a
--   configuration names.
-- Router: `ToAddressRouter` of src/vumi2/routers.py, over Workers and Cache/MessageCache.
-- HttpRpc: `HttpRpcTransport` of src/vumi2/transports/httprpc/http_rpc.py.
-- AatUssd: `AatUssdTransport` of src/vumi2/transports/aat_ussd/aat_ussd.py, over HttpRpc.
-- Connectors: `Consumer` of src/vumi2/connectors.py as a relation of steps between its states.
--   Connectors/Base is `Publisher`, `BaseConnector` and its two subclasses, and
--   Connectors/Collection is `ConnectorCollection`, again as a relation of steps.
--   Connectors/Pairing and Connectors/Delivering are about the routing keys that join the
--   connectors of two workers.
-- Api: what the two HTTP APIs of src/vumi2/applications share, with the exceptions of errors.py.
-- Junebug: `MemoryJunebugStateCache` of
--   src/vumi2/applications/junebug_message_api/junebug_state_cache.py, over Cache/TimeoutDict.
--   Junebug/Outbound is messages.py beside it, and Junebug/Worker is `JunebugMessageApi` of
--   junebug_message_api.py: the handlers of messages and events, and the requests over HTTP.
-- Turn: src/vumi2/applications/turn_channels_api. Turn and Turn/Outbound are messages.py,
--   Turn/Worker is `TurnChannelsApi` of turn_channels_api.py, over Cache/MessageCache: the
--   retries with which an inbound message is delivered, events, and the requests over HTTP.
-- Configs: src/vumi2/config.py: the walk over a configuration class and the combination of the
--   file, the environment and the command line. Configs/Options is `worker_config_options` of
--   src/vumi2/cli.py.
-- StaticReply: `StaticReplyApplication` of src/vumi2/applications/static_reply/static_reply.py.
-- Tests: the theorems at concrete inputs, and runs.
-- Prelude: what the files share. Prelude/Dict is Python's dict, Prelude/Outcome its exceptions.
--
-- How the code is modelled: an asynchronous method is a function from a state to a result and a
-- new state. Where it waits for another task it is cut, and what it waits for is an argument:
-- the response of the server in Smpp/Client, the reply in HttpRpc. An exception is a value of
-- `Result`, and the state at that point is returned with it. What leaves a component (PDUs sent,
-- messages published) is a list in its state, in order. Where several tasks share a state, as
-- those of a `Consumer`, each constructor of `Step` is what one task does between two waits. The
-- clock is an argument, read at the places where the code reads it; times are whole numbers, and
-- so are bytes. The generated ids are arguments.
--
-- Code of other packages is an argument: the codecs of Python's library (`PythonCodecs`), JSON,
-- the HMAC, `strftime`, `strptime`, `str.upper`, `str.lower`, `import_module`, `unidecode` and
-- the conversions of cattrs (`Environment` and `Conversions`), the answers of HTTP servers and
-- what `secrets` draws (`Network`), the classes and status tables of smpp.pdu (`SmppPdu`, and
-- the decoder in `receive`), `re.compile` (but for the default expression for reports), and the
-- rendering of bodies in AatUssd. Of these the theorems assume nothing but what their hypotheses
-- say: those of Smpp/Framing/Chunks and Smpp/Framing/Frames say that the decoder raises on no
-- bytes, where a PDU has to begin with its length.
--
-- Fuel and bounds: the inner loop of `consume_stream` runs on fuel, one more than the length of
-- the buffer, and a theorem says that it does not run out. The loop of `_split_message` runs for
-- the rounds that `range` gives, and so does that of the retries in Turn/Worker. `decimal` has
-- one digit more than it needs as fuel. The other recursions are structural.
--
-- Not modelled: the tasks, channels and sockets of trio, AMQP, the HTTP server, sentry, logging,
-- the reading of YAML, what cattrs makes of a configuration, the parser of argparse, the `setup`
-- of the workers and the start of a worker in src/vumi2/cli.py. Of the exchange of AMQP only
-- this is used: a queue is bound to its own name, so that it gets what is published under that
-- name as routing key. Of a `Consumer`, a delivery that waits for room in the channel is not
-- modelled, and a call of AMQP that fails counts as not made. A worker adds a connector to its
-- collection before `setup` of the connector has run; the model adds it afterwards.
-- `TimeoutDict.pop` reads the clock twice, in the model at one time. A `Message` that replies
-- over the Turn API has its content as it came, in the model what `str` makes of a content that
-- is no text.
pub mod Prelude
pub mod Messages
pub mod Cache
pub mod Smpp
pub mod Workers
pub mod Router
pub mod HttpRpc
pub mod AatUssd
pub mod Connectors
pub mod Api
pub mod Junebug
pub mod Turn
pub mod StaticReply
pub mod Configs
pub mod Tests
