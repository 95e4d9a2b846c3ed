-- ===== src/Dto.antt =====
-- internal/httpapi/dto: the wire forms, and the labels that answers are shown with.
pub mod Labels
pub mod Responses
