-- ===== src/Database.antt =====
-- The tables of src/database/migrations, as the repositories see them, and the error values of
-- the services. Identifiers, digests, e-mail addresses and other strings that the code only
-- compares are numbers, 0 being the empty string; addresses that the code inspects are texts of
-- code points. Instants are milliseconds.
mod Tables
mod Errors
pub use Tables.*
pub use Errors.*
