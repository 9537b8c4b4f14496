-- ===== src/Worker/Examples.antt =====
-- Concrete runs of the Worker's parts.
mod Claims
mod Events
