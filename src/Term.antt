-- ===== src/Term.antt =====
-- internal/term/term.go: the web terminal. A session and the manager that owns the sessions each
-- have a mutex; an operation that takes it twice is two steps.
pub mod Session
pub mod Size
pub mod Manager
