-- ===== src/Reports.antt =====
-- The form for field reports in cmd/web/app.js: `operationPayload`, `submitOperation`, the log in the
-- browser, the handler of the form, what the history shows, and the CSV export. The queue of reports
-- that could not be sent is that of Operations.
pub mod Form
pub mod Log
pub mod Submit
pub mod Export
mod Tests
