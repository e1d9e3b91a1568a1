-- ===== src/Exceptions.antt =====
-- app/core/exceptions.py and the exceptions of the libraries that the services meet, with the
-- state-and-exception monad of a service method.
mod Monad
mod Traces
pub use Monad.*
pub use Traces.*
