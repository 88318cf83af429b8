-- ===== src/Types.antt =====
-- The program's data: the tables of model.go, the configuration of config.go, and the bodies of
-- the JSON responses.
mod Settings
mod Tables
mod Responses
pub use Settings.*
pub use Tables.*
pub use Responses.*
