-- ===== src/Lib.antt =====
-- osmmini: the logic of the web client.
--
-- The program is a routing and mapping service with a browser client. Its client holds a versioned
-- editing workspace for OpenStreetMap objects, cmd/web/osm-editor.js: objects read from the OSM API
-- are checked and copied, edited as drafts next to their base, kept in the browser's storage with
-- undo and redo, checked for broken references, and exported as an osmChange file. It also queues
-- field reports while it is off line (cmd/web/app.js), and talks to a router in a worker
-- (cmd/wasm/client.mjs). Beside these stand the choice of a map source, with local tiles that
-- the server builds, the style of the offline map, a workbench for local GeoJSON and CSV files,
-- sketches with their measures, and the territories that a route crosses.
--
-- Files:
--   Base: names and lemmas that all parts share. Text is the list of its code points (Base/Texts), a
--     function that throws returns a Result (Base/Results), integers are ℤ (Base/Int).
--   Json: what JSON.parse returns, and the tests of the program on it. A number is an integer, lies
--     between two neighbouring integers, or is NaN or infinite (Json/Numbers): as far as the program
--     compares numbers. Where it computes with doubles, the arithmetic is a parameter.
--   OsmEditor: cmd/web/osm-editor.js.
--     Problem: the errors it throws.
--     Tags: `tags`, `xmlText`.
--     Element: `member`, `element`, `validID`, `refID`.
--     Draft: `validateDraft`, `viewCenter`.
--     References: `collectIssues`, `checkReferences`, `nextTempId`.
--     Changes: `changes`, `geometryChange`, `memberChanges`, `elementUnchanged`.
--     Export: `osc` up to the sections of the change, and `restore`.
--     Xml: `esc` and the text that `osc` returns; how a number is written is a parameter.
--     Workspace: `persist`, undo and redo, and the button that takes a deletion back. The
--       stacks hold the last push first, and a JSON text of drafts stands for the drafts.
--     Way: `performSplit` with `patchRelationsForSplit`, and the node list of `mergeWith`.
--     Tests, here and below: runs, and the theorems at concrete drafts.
--   Operations: the offline queue of field reports in cmd/web/app.js.
--     Operations: `pendingOperations`, `savePendingOperations`, `queueOperation`,
--       `flushPendingOperations`, as a session on which events act: the queue is called, a transfer
--       begins, a request ends. Each event says whether the request and the write succeeded.
--     Queue, Calls, Transfer, Drain: what the queue satisfies, what each call leaves, any run, and a
--       run in which everything succeeds. Tests: runs.
--   WasmClient: cmd/wasm/client.mjs, the calls that are open at the routing worker: `call`, the message
--     handler, `close` and `dispose`, as a client on which events act. Settled: where each call is.
--   Presets: cmd/web/osm-presets.js. Kinds, Fields, Places, Categories: its tables, entry by entry.
--     Lookup: `presetKeyForTags`, `fieldsFor`, `categoryLabel` and their neighbours; Ranked: what they
--     find. Checks: `checkValue`; a day past the end of a month is carried over for at most 4 months,
--     and 4 months are longer than the 99 days that two digits can say. Dates: the days it lets through.
--   Workbench: cmd/web/geo-workbench.js. Validate: `validate`, where `geometry` counts down the levels
--     that may still be nested. Objects, Select: attributes, `matching`, `subset`, `edit`. Csv: `parseCSV`
--     as a scanner with the variables of the loop, `toCSV`. Join: `join`. Session: the state of the panel
--     in `create`; Session.Handlers: the events that act on it; what is awaited while it is busy is a
--     `Task`. Session.View: what it shows. Simplify: `reduce` of `simplify`.
--   Planning: cmd/web/planning.js. Measure: `distance`, `unwrap`, `measure`, over an arithmetic that
--     stands for the doubles; a point is brought beside the one before it in at most 500 rounds, and as
--     each point of at most 500 lies within half a turn of the one before, fewer are needed. Balance:
--     `balance`. Items: `collection`, `restore`. Panel: the state in `create`, on which events act.
--   Territories: cmd/web/app.js, `territoryFindFeature` and `territoryEventsForPath`. Runs: the visits
--     of a route against the runs of equal territories.
--   Reports: cmd/web/app.js, the form for field reports. Form: `operationPayload`. Log: the log in the
--     browser. Submit: the handler, which queues in Operations what it cannot send. Export: `operationCSV`
--     and the texts that are shown.
--   Tiles: cmd/web/app.js, map sources and local tiles. The presets, their cards and the form, as
--     functions. Build: the state of a build as the server tells it; Build.View: what is shown of it.
--     Session: the variables and the form as a state; Finish, Requests, Handlers: what ends a task,
--     `startTinyTilesBuild` with `fetchTinyTilesStatus`, and the events. Kept, Ended, Reached: what
--     always holds. Twice, Undone: a state that comes twice, and what becomes of a choice.
--   OfflineStyle: cmd/web/offline-style.js. `normalize`, the presets and `scaleWidth`. Editor: the draft
--     on which events act, `paintFor` and `apply`. Kept: what is stored is loaded as it is.
--
-- How the parts meet: `restore` reads a backup by `validateDraft`, which calls `element` for the base
-- and for the edited object, which calls `tags` and `member`; it then exports the result by `osc`
-- once, so that a backup that could not be exported is refused. `osc` refuses duplicates and what
-- `collectIssues` reports, leaves out what `elementUnchanged` accepts, and orders the rest by type.
--
-- Every loop is over a list and ends with it, but for three that count down: the months over which a
-- date is carried and the turns of a point, both bounded above, and the pieces into which `simplify`
-- splits a line, with twice as many rounds as it has points. Simplify/Ends shows these to be enough; a
-- point of that line takes as many turns as it has points at most. The limits are the program's: 200
-- tags of 255 characters, 2000 nodes of a way, 300 members, 100 drafts, 30 states to go back to, 100
-- queued reports, 500 in the log, 5000 features of 50000 points, 10 MiB, 100 sketches of 500 points,
-- IDs within 2 ^ 53 - 1.
--
-- Boundaries: JSON.stringify and JSON.parse belong to the platform, so a saved text stands for the
-- value that it holds. A dictionary keeps its keys in the order of insertion; the platform lists
-- keys that look like integers first, an order that the model leaves out. The type of an object in a backup
-- is text or missing, and the kind of a stored sketch is text: what Object.hasOwn makes of other values
-- as a key is left out. The IDs of territories are texts, and the highest zoom of a map source is below
-- 10 ^ 21, where numbers are written digit by digit. Not modelled: the view (DOM, map layers, requests), `bounds` of the workbench and
-- what `simplify` does beside `reduce`, the search for postal codes, the camera that scans codes, the
-- Go server, the Swift and mobile libraries, vendored map libraries, the worker of the router, and the
-- other client files. Other tabs that write the queue at the same time are outside the model.
pub mod Base
pub mod Json
pub mod OfflineStyle
pub mod Operations
pub mod OsmEditor
pub mod Planning
pub mod Presets
pub mod Reports
pub mod Territories
pub mod Tiles
pub mod WasmClient
pub mod Workbench
