-- ===== src/Lib.antt =====
-- Verification of the client core of pathmemos, a WeChat mini program that keeps notes of the
-- places where its user stays.
--
-- Parts, by path from the repository's root:
--
-- * frontend/miniapp/miniprogram/polyfills/textDecoder.ts, in Decoder: the streaming UTF-8
--   decoder that the event stream reads its chunks with. `new_decoder` is the constructor and
--   `decode` the method; `step` is one round of its loop and `close` what follows the loop. The
--   loop runs on fuel, as much as there are bytes, which is enough since each round takes one byte
--   at least (Decoder/Scan).
-- * frontend/miniapp/miniprogram/utils/autoRecord.ts, in AutoRecord. Floats: coordinates, with
--   floating point as a parameter without laws. State: the module's variables and constants, and
--   the small operations on them. Timers: the timers, `_resetState`, `_touchActive`, the iOS
--   resume. Tracker: `onLocationChange`, which finds the stays and queues a point for each.
--   Reports: the queue, its storage on the device (`_flushToStorage`) and its upload
--   (`_tryReportStorage`, `_serialFlushAndReport`). Lifecycle: `openAutoRecord`, `closeAutoRecord`
--   and the settings modal. Restore: `tryRestoreAutoRecord`, `onAppShow`, `onAppHide`. Position:
--   `_getCurrentLocation` and `_saveFirstRecord`.
-- * frontend/miniapp/miniprogram/utils/eventSource.ts, in EventSource: the stream's state and
--   handlers. `cut` is the search of the separator, `process_loop` the loop of `processBuffer`, on
--   fuel as much as the buffer is long, which is enough since each round takes a separator off
--   (EventSource/Chunks). `log` lists the callbacks.
-- * frontend/miniapp/miniprogram/utils/opslog.ts, in OpsLog: the log of operations.
-- * frontend/miniapp/miniprogram/utils/concurrency.ts, in Concurrency: `runWithConcurrency`.
-- * frontend/miniapp/miniprogram/utils/vip.ts, in Vip: the cache and its query.
-- * frontend/miniapp/miniprogram/utils/util.ts, in TimeLabel: `formatTimeLabel`.
-- * frontend/miniapp/miniprogram/utils/http.ts, in Http. Token: `createCancelToken`. Toast: the
--   toasts and the loading mask. Request: `_request`, as the signals that its promise reacts to.
--   Upload: `_compressImage`, `_uploadWithGuard`, `_uploadOne` (Single) and `uploadFile` (Batch).
-- * frontend/miniapp/miniprogram/behaviors/safeSetData.ts, in SetData: writes of view data by a
--   component that may be hidden. A key is a data path, so that keys overlap; what an overlap does
--   to writes that wait is run in SetData/Tests.
-- * frontend/miniapp/miniprogram/pages/index/index.ts, in Home: the list of cards, its paging and
--   its refresh.
-- * frontend/miniapp/miniprogram/components/NoteEdit/NoteEdit.ts, in NoteEdit: the images of a
--   record when it is submitted.
-- * frontend/miniapp/miniprogram/components/AIDrawer/AIDrawer.ts, in AiDrawer. Text: the texts.
--   Writes: writes of view data, also of parts of the list, as safeSetData.ts does them. Callbacks:
--   the callbacks of a stream and `_abortSSE`. Sending: `sendPrompt`, `send`, `retryLast` and the
--   lifetimes. `without_tags_on` runs on fuel, as much as the text is long, which is enough since
--   each round takes a code point at least.
-- * frontend/miniapp/miniprogram/utils/auth.ts, in Auth: `login`, and the flights that logins share.
-- * frontend/miniapp/miniprogram/pages/NoteDetail/shareCanvas.ts, in Share: `wrapText`, and the images
--   of `generateShareImage` and `loadAllImages`. What the canvas measures is a parameter.
-- * frontend/miniapp/miniprogram/pages/NoteDetail/NoteDetail.ts, in NoteDetail: the entries of a day
--   and their paging.
-- * frontend/miniapp/miniprogram/utils/i18n.ts, in Translation: the language and its storage; Texts:
--   the lookup of texts in tables, which are parameters.
--
-- AutoRecord asks Vip for the user's status, and takes the answer as a parameter; EventSource
-- reads its chunks by Decoder. NoteEdit submits its images by Http/Upload/Batch, whose limiter is
-- Concurrency: that gives the results in the order of the tasks, so the upload of the file at an
-- index is a function of the index. AiDrawer takes the end of a login (Auth) and the callbacks of its
-- streams (EventSource) as events, in any order and also from streams that it has left.
--
-- The source's asynchronous functions are cut at their `await`s: a part of such a function is a
-- function of the state and of the answer that it resumes with, and a function whose name ends
-- in `_run`, or that takes all answers, is the composition for a run in which nothing else
-- happens meanwhile. Work that a function starts and does not wait for is listed in `started`. A
-- storage that fails, a refused request or a denied permission is an answer like any other.
--
-- Numbers: a time is in milliseconds, a natural number, and a test `a - b < c` of the source is
-- written `a < b + c`, which subtracts nothing. Bytes and UTF-16 code units are natural numbers.
--
-- Not modelled: callbacks of a stream that call its `abort`; `opsLogFail`'s extra fields;
-- `claimNewUserFreeVip`; two callers of `_serialFlushAndReport` that wait for the same report;
-- the texts of errors and notifications; `updateAvatar`; addresses and headers of requests; of the
-- pages, the note editor and the chat what is not named above; the other pages, the tables of
-- texts and the server.
mod Base
pub mod Decoder
pub mod AutoRecord
pub mod EventSource
pub mod OpsLog
pub mod Concurrency
pub mod Vip
pub mod TimeLabel
pub mod Http
pub mod SetData
pub mod Home
pub mod NoteEdit
pub mod AiDrawer
pub mod Auth
pub mod Share
pub mod NoteDetail
pub mod Translation
