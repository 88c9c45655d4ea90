-- ===== src/Yaml.antt =====
-- src/aisb/yamlish.py: the reader of a subset of YAML. This module has its values and errors; Text
-- has Python's operations on texts, Quoted the quoted scalars, Flow the scalars and the flow
-- collections, Lines the lines of a document, Continued the scalars over several lines, and Block
-- the block collections and `loads`. A text is the list of its code points.
pub mod Text
pub mod Quoted
pub mod Plain
pub mod Flow
pub mod Lines
pub mod Continued
pub mod Block
pub mod RoundTrip
pub mod Sequences
pub mod Refusals
pub mod Distinct
mod Tests
