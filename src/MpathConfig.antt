-- ===== src/MpathConfig.antt =====
-- mpathconfig/configresource.go: multipath.conf as a tree of sections. Syntax has the lines, Tree the
-- sections and their search, Parser the reading of a file and Printer its writing.
-- Sections are shared by pointers, so they live on a heap: a section's address is its place in
-- `heap`, and the root is at 0. The text is ASCII. A section's properties are listed in the order in
-- which they were set, where Go leaves the order of a map open. The locks are held from start to end
-- of each function and are left out, as are opening, backing up and writing the file.
pub mod Syntax
pub mod Tree
pub mod Parser
pub mod Printer
mod Tests
