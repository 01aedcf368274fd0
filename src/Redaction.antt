-- ===== src/Redaction.antt =====
-- secret_redaction.py: the secrets that are found in a text, the text with placeholders in their place, and the
-- spans of an audit. A text is a list of code points. The searches for the patterns that are not written out
-- in Redaction/Text, the plugins of detect-secrets and the entropy are parameters.
pub mod Text
pub mod Detect
pub mod Collect
pub mod Mask
pub mod Masking
pub mod Spans
