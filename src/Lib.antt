-- ===== src/Lib.antt =====
-- The iGrill remote server: a service that reads iGrill thermometers over Bluetooth, keeps the
-- cooks in SQLite, judges the temperatures against targets and tells its clients over WebSocket.
--
-- Parts and files. The Bluetooth workers (service/ble) record readings in the history store
-- (service/history/store.py) and pass them to the alert evaluator (service/alerts/evaluator.py);
-- the WebSocket hub (service/api/websocket.py) starts and ends sessions, sets targets and runs the
-- timers of the store; a background task (service/timers.py) completes the countdowns that expire.
--
-- - Store: the tables of service/db/schema.py with the columns of service/db/migrations.py, as lists
--   of rows, and the fields of HistoryStore. Store.Timers, Store.Devices and Store.Sessions are the
--   methods of service/history/store.py under their names, a `_locked` method without the leading
--   underscore. An INSERT appends a row, an UPDATE and a DELETE rewrite the list by their WHERE
--   clause, and a SELECT of one row takes the first. The lock makes a method one step. A method that
--   raises is an Action, whose result is the error and the state that is left. The instant at which
--   a method runs is an argument, read once for the method.
-- - Clock: now_iso_utc and parse_iso over datetime, whose isoformat and fromisoformat are the fields
--   of a record, with the documented inverse as its law. An instant counts microseconds.
-- - Store.Targets: save_targets, update_targets, get_targets and get_targets_by_device of the store.
-- - Store.Notes: the primary note of a session; the id that AUTOINCREMENT gives is an argument.
-- - Store.Readings: record_reading and get_max_seq; `new_id` is the next id of AUTOINCREMENT.
-- - Store.Listings: the methods of the store that list rows. A row of an INSERT OR IGNORE is found by
--   its key, so the LEFT JOIN is a search; `heating` stays the text that json.dumps wrote.
-- - Target: TargetConfig of service/models/session.py, and Target.Wire its from_dict and to_dict.
--   Alerts and Alerts.Evaluate: AlertEvaluator. Floats are the interface Real: the operations and no
--   law.
-- - Json: the values of json.loads. What int(), float() and str() make of a float or a text is the
--   record Python.
-- - Downsampler: service/history/downsampler.py. Downsampler.Pass is downsample_range as the list of
--   its statements in one transaction, the two passes, and end_session of the store. The averages
--   of floats and the local time are parameters; the offset of an aware timestamp is UTC, which is
--   what the store writes.
-- - Server: the HistoryStore, the AlertEvaluator, the entries and the event queue of the DeviceStore
--   (service/models/device.py), which the handlers of service/api/websocket.py share. Server.Checks
--   has the tests at the head of each handler, in their order, Server.Handlers the eight handlers
--   that change state, Server.Reads the requests for sessions and for a history, Server.Dispatch the
--   loop body of websocket_handler: version, type, rate limit,
--   requestId, handler. The payload is any JSON value. An exception that no clause catches is the
--   error of the Action: it ends the connection. What SQLite stores for a value that is no text or
--   no integer is the record Affinity. The messages carry the payload without the envelope.
-- - Push: PushService of service/push/service.py. What APNS answers to each attempt is an argument; the
--   coroutines of the fan-out are one after the other, since each removes its own token only.
-- - Routes: is_authorized of service/api/websocket.py and push_token_handler of service/api/routes.py,
--   with the pattern of a token as a function on its characters; Routes.Sessions: sessions_handler and
--   session_detail_handler. str.strip is an argument, and the bodies keep the rows as they are.
-- - Server.Rehydrate: rehydrate_alert_evaluator of service/main.py.
-- - Reading: parse_temperature_probe of service/models/reading.py.
-- - RateLimiter: _RateLimiter of service/api/websocket.py. RateLimiter.Window compares it with a log
--   of all accepted requests.
-- - Queues: publish_reading and publish_event of service/models/device.py, and the two queues of
--   WebSocketClient in service/api/websocket.py.
-- - Connection: ConnectionStateMachine of service/ble/connection_state.py in whole milliseconds, with
--   the jitter that random.uniform draws as an argument.
-- - Worker: how DeviceWorker.run of service/ble/device_worker.py keeps its device in the session.
-- - Countdown: CountdownCompleter.tick of service/timers.py.
-- - Config: _read_int_env of service/config.py, with int() as a parameter.
-- - Action: results and errors. Prelude: names, lists, rows, integers and texts for all the others.
-- - Tests: concrete stores and cooks on which the theorems are applied.
--
-- There is no fuel: every loop of these parts runs over a list. A fault of the database is a
-- parameter of the discard and of the downsampling (how many statements succeed before one raises);
-- elsewhere the database raises where a foreign key or a primary key is violated, and the INSERT of a
-- session or a target where an integer does not fit the 64 bits of its column. What a REAL column
-- keeps of a float (a NaN becomes NULL) is the field `stored` of Real. The integers of the other
-- tables are taken to fit, texts to have no lone surrogates, and a discard or a downsampling to start
-- where no transaction is open. A uuid is an argument, and a theorem that needs it to be new says so.
--
-- Not modelled: _handle_status (to which the dispatch hands over), the hub, the other HTTP routes, the
-- poll loop of the workers, the texts and the content state of the push notifications and the
-- simulator; SQLite, asyncio, aiohttp and bleak, which are third-party; the web page, which is
-- JavaScript; logging.
pub mod Action
pub mod Alerts
pub mod Clock
pub mod Config
pub mod Connection
pub mod Countdown
pub mod Downsampler
pub mod Json
pub mod Prelude
pub mod Push
pub mod Queues
pub mod RateLimiter
pub mod Reading
pub mod Real
pub mod Routes
pub mod Server
pub mod Store
pub mod Target
pub mod Tests
pub mod Worker
