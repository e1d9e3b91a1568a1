-- ===== src/Models.antt =====
-- The tables of app/models and the session over them. Identifiers and other strings that the code
-- only stores and compares are numbers, and 0 is the empty string; a status column is a data type
-- of the values that the code writes.
mod Clock
mod Token
mod Payment
mod Party
mod Risk
mod Webhook
mod Identity
mod Session
pub use Clock.*
unfoldable pub use Token.*
pub use Payment.*
pub use Party.*
pub use Risk.*
pub use Webhook.*
pub use Identity.*
pub use Session.*
