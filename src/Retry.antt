-- ===== src/Retry.antt =====
-- Resending a failed model request: `RetryPolicy`, `RetryPolicy.wait` and `_with_retries` of
-- src/nare/loop.py, with `transient` of src/nare/transport/__init__.py and the rule of
-- AnthropicTransport in src/nare/transport/anthropic.py.
-- Times are whole milliseconds. The attempt is a parameter that says how each call of the
-- transport ends; an exception is what `transient` reads of it and of its explicit causes.
mod Failure
pub mod Anthropic
pub mod Loop
pub mod Bounds
pub use Failure.*
