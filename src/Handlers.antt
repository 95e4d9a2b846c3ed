-- ===== src/Handlers.antt =====
-- The handlers of internal/httpapi/handlers, but for those of auth.go. A handler is a run that ends
-- in a response or, at an early return, in the status and the error that it writes. What gin has
-- parsed of a request is an argument: a body that is no JSON of its type is `none`, and so is a
-- missing key of the query.
pub mod Responses
pub mod Paging
pub mod Users
pub mod Sessions
pub mod Images
pub mod Expert
pub mod QuestionImport
pub mod Questions
