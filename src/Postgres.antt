-- ===== src/Postgres.antt =====
-- internal/store/pg.go and migrations/*.sql: the store over PostgreSQL. The statements stand in
-- one child for each group of tables, the methods that run them in Methods.
pub mod Database
pub mod Statements
pub mod Queue
pub mod Assets
pub mod Jobs
pub mod Documents
pub mod Approvals
pub mod Commands
pub mod Moves
pub mod Obeyed
pub mod Methods
pub mod Growing
pub mod History
pub mod Ledger
pub mod Atomic
pub mod Integrity
pub mod Keeping
pub mod Sound
pub mod Agreement
pub mod Gives
pub mod Holding
pub mod Transitions
pub mod Reviews
pub mod Withdrawals
pub mod Unread
