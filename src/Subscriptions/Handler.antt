-- ===== src/Subscriptions/Handler.antt =====
-- internal/subscriptions/handler.go and admin_handler.go: the requests for an application and the
-- decisions of an administrator.
pub mod Answers
pub mod Detail
pub mod Requests
pub mod Strangers
pub mod Keeping
pub mod Gated
